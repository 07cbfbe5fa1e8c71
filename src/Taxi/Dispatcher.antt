-- ===== src/Taxi/Dispatcher.antt =====
-- module3/task10/server.c. A table entry has the pid and the descriptors of the two FIFOs; the table is the
-- first `num_drivers` entries of `drivers`. A pid and a task time are 32-bit patterns of an `int`.
use eltex_practice.Base.{
  ℕ, ◌-◌, ◌^◌, Bool, true, false, ◌&&◌, List, [], ◌∷◌, ◌++◌, map, Option, none, some, length, ltb,
  leb, ◌==◌, if◌then◌else◌, Bytes, codes, str_eq, scan_int, scan_word, skip_space, is_space,
}
use eltex_practice.Taxi.Driver.{
  MsgType, msg_task, msg_status_req, msg_status_rsp, msg_ack, msg_busy, other, IpcMsg,
}

pub record DriverInfo : Type 0 where
  pub pid : ℕ
  pub req_fd : ℕ
  pub rsp_fd : ℕ

abbrev pub max_drivers : ℕ
max_drivers = 100

-- A line on the terminal, by what it says.
pub data Line : Type 0 where
  accepted : ℕ → Line
  busy : ℕ → ℕ → Line
  available created not_found : ℕ → Line
  no_drivers fork_failed usage_send_task usage_get_status unknown_command : Line

-- What the server does to the world: write a message, print a line, or remove the FIFOs and exit.
pub data Effect : Type 0 where
  writes : ℕ → IpcMsg → Effect
  prints : Line → Effect
  exits : Effect

unfoldable pub find_driver : ℕ → List DriverInfo → Option DriverInfo
find_driver pid [] = none
find_driver pid (d ∷ ds) = if d.pid == pid then some d else find_driver pid ds

-- The outcome of `fork`, with the descriptors that the two calls of `open` return.
pub data Fork : Type 0 where
  fork_error : Fork
  forked : ℕ → ℕ → ℕ → Fork

unfoldable pub fork_driver : Fork → List DriverInfo → List DriverInfo × List Effect
fork_driver fork_error drivers = (drivers, prints fork_failed ∷ [])
fork_driver (forked pid req_fd rsp_fd) drivers = (
  drivers ++ record { pid = pid; req_fd = req_fd; rsp_fd = rsp_fd } ∷ [],
  prints (created pid) ∷ [],
)

unfoldable pub handle_create_driver : Fork → List DriverInfo → List DriverInfo × List Effect
handle_create_driver fork drivers =
    if leb max_drivers (length drivers) then (drivers, []) else fork_driver fork drivers

abbrev pub request : MsgType → ℕ → IpcMsg
request k payload = record { msg_type = k; payload = payload; driver_pid = 0 }

unfoldable pub handle_send_task : ℕ → ℕ → List DriverInfo → List Effect
handle_send_task pid timer drivers = elim (find_driver pid drivers) [
  | none ↦ prints (not_found pid) ∷ []
  | some drv ↦ writes drv.req_fd (request msg_task timer) ∷ []
]

unfoldable pub handle_get_status : ℕ → List DriverInfo → List Effect
handle_get_status pid drivers = elim (find_driver pid drivers) [
  | none ↦ prints (not_found pid) ∷ []
  | some drv ↦ writes drv.req_fd (request msg_status_req 0) ∷ []
]

unfoldable pub handle_get_drivers : List DriverInfo → List Effect
handle_get_drivers [] = prints no_drivers ∷ []
handle_get_drivers (d ∷ ds) = map (λ drv. writes drv.req_fd (request msg_status_req 0)) (d ∷ ds)

-- `%*s`: the blanks, and the word behind them.
unfoldable pub skip_word : Bytes → Bytes
skip_word [] = []
skip_word (c ∷ s) = if is_space c then c ∷ s else skip_word s

-- `sscanf(buf, "%*s %d", &pid)` and `sscanf(buf, "%*s %d %d", &pid, &timer)`.
unfoldable pub scan_pid : Bytes → Option (ℕ × Bytes)
scan_pid buf = scan_int (skip_word (skip_space buf))

unfoldable pub scan_task : Bytes → Option (ℕ × ℕ)
scan_task buf = elim (scan_pid buf) [
  | none ↦ none
  | some (pid, rest) ↦ elim (scan_int rest) [
    | none ↦ none
    | some (timer, rest') ↦ some (pid, timer)
  ]
]

unfoldable pub send_task_line : Option (ℕ × ℕ) → List DriverInfo → List Effect
send_task_line none drivers = prints usage_send_task ∷ []
send_task_line (some (pid, timer)) drivers = handle_send_task pid timer drivers

unfoldable pub get_status_line : Option (ℕ × Bytes) → List DriverInfo → List Effect
get_status_line none drivers = prints usage_get_status ∷ []
get_status_line (some (pid, rest)) drivers = handle_get_status pid drivers

-- The chain of tests on the command word; `fork` is asked for by `create_driver` only.
unfoldable pub run_command : Bytes → Bytes → Fork → List DriverInfo → List DriverInfo × List Effect
run_command cmd buf fork drivers =
    if str_eq cmd (codes "create_driver")
    then handle_create_driver fork drivers
    else if str_eq cmd (codes "send_task")
    then (drivers, send_task_line (scan_task buf) drivers)
    else if str_eq cmd (codes "get_status")
    then (drivers, get_status_line (scan_pid buf) drivers)
    else if str_eq cmd (codes "get_drivers")
    then (drivers, handle_get_drivers drivers)
    else if str_eq cmd (codes "exit")
    then (drivers, exits ∷ [])
    else (drivers, prints unknown_command ∷ [])

-- A line that `fgets` read; one of blanks only does nothing.
unfoldable pub process_cli_input : Bytes → Fork → List DriverInfo → List DriverInfo × List Effect
process_cli_input buf fork drivers = elim (scan_word 63 (skip_space buf)) [
  | [] ↦ (drivers, [])
  | c ∷ cmd ↦ run_command (c ∷ cmd) buf fork drivers
]

unfoldable pub handle_ack : ℕ → ℕ → Line
handle_ack pid payload = accepted pid

unfoldable pub handle_busy : ℕ → ℕ → Line
handle_busy pid payload = busy pid payload

-- `payload > 0` of an `int` in 32 bits.
unfoldable pub handle_status_rsp : ℕ → ℕ → Line
handle_status_rsp pid payload =
    if ltb 0 payload && ltb payload (2 ^ 31) then busy pid payload else available pid

-- The table `resp_handlers`.
unfoldable pub resp_handlers : MsgType → Option (ℕ → ℕ → Line)
resp_handlers msg_task = none
resp_handlers msg_status_req = none
resp_handlers msg_status_rsp = some handle_status_rsp
resp_handlers msg_ack = some handle_ack
resp_handlers msg_busy = some handle_busy
resp_handlers other = none

-- The loop that looks for the pid: the last entry with the descriptor counts, -1 if there is none.
unfoldable pub pid_of : ℕ → ℕ → List DriverInfo → ℕ
pid_of fd pid [] = pid
pid_of fd pid (d ∷ ds) = pid_of fd (if d.rsp_fd == fd then d.pid else pid) ds

-- `process_driver_message`, with what `read` delivered: none where it failed.
unfoldable pub process_driver_message : ℕ → Option IpcMsg → List DriverInfo → List Effect
process_driver_message fd none drivers = []
process_driver_message fd (some msg) drivers = elim (resp_handlers msg.msg_type) [
  | none ↦ []
  | some handler ↦ prints (handler (pid_of fd (2 ^ 32 - 1) drivers) msg.payload) ∷ []
]

-- The rounds of `server_run`: what `select` finds ready.
pub data Ready : Type 0 where
  input : Bytes → Fork → Ready
  response : ℕ → Option IpcMsg → Ready

unfoldable pub handle_ready : Ready → List DriverInfo → List DriverInfo × List Effect
handle_ready (input buf fork) drivers = process_cli_input buf fork drivers
handle_ready (response fd msg) drivers = (drivers, process_driver_message fd msg drivers)

unfoldable pub has_exited : List Effect → Bool
has_exited [] = false
has_exited (exits ∷ es) = true
has_exited (writes fd msg ∷ es) = has_exited es
has_exited (prints l ∷ es) = has_exited es

unfoldable pub server_run : List Ready → List DriverInfo → List DriverInfo × List Effect
server_run [] drivers = (drivers, [])
server_run (r ∷ rs) drivers =
    let (drivers', effects) = handle_ready r drivers in
    let (drivers'', later) = server_run rs drivers' in
    if has_exited effects then (drivers', effects) else (drivers'', effects ++ later)
