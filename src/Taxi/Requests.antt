-- ===== src/Taxi/Requests.antt =====
-- Every message that the dispatcher writes is a request: module3/task10/server.c.
use eltex_practice.Base.{
  ℕ, ◌≡◌, refl, ◌⊎◌, inl, inr, List, [], ◌∷◌, map, Option, none, some, length, leb, ◌==◌,
  if◌then◌else◌, Bytes, codes, str_eq, scan_word, skip_space, All,
}
use eltex_practice.Resources.{if_both, Option-both}
use eltex_practice.Taxi.Driver.{msg_task, msg_status_req, IpcMsg}
use eltex_practice.Taxi.Dispatcher.{
  DriverInfo, max_drivers, Effect, writes, prints, exits, find_driver, Fork, fork_error, forked,
  fork_driver, handle_create_driver, request, handle_send_task, handle_get_status,
  handle_get_drivers, scan_pid, scan_task, send_task_line, get_status_line, run_command,
  process_cli_input,
}

-- The messages that go into a FIFO.
abbrev pub written : ℕ → List Effect → List IpcMsg
written fd [] = []
written fd (writes k msg ∷ es) = if k == fd then msg ∷ written fd es else written fd es
written fd (prints l ∷ es) = written fd es
written fd (exits ∷ es) = written fd es

-- What the dispatcher puts into a FIFO.
abbrev pub IsRequest : IpcMsg → Type 0
IsRequest msg = (msg.msg_type ≡ msg_task) ⊎ (msg.msg_type ≡ msg_status_req)

abbrev pub Asking : Effect → Type 0
Asking (writes fd msg) = IsRequest msg
Asking (prints l) = Unit {0}
Asking exits = Unit {0}

-- Every message that a command writes is a request.
abbrev pub Asks {ℓ} : {A : Type ℓ} → A × List Effect → Type 0
Asks r = All Asking r.1

send_task-Asks :
    (o : Option (ℕ × ℕ)) (drivers : List DriverInfo) → All Asking (send_task_line o drivers)
unfolding send_task_line handle_send_task
send_task-Asks none drivers = (tt, tt)
send_task-Asks (some (pid, timer)) drivers =
    let P : List Effect → Type 0 = λ es. All Asking es in
    Option-both P (find_driver pid drivers) _ _ (tt, tt) λ drv. (inl refl, tt)

get_status-Asks :
    (o : Option (ℕ × Bytes)) (drivers : List DriverInfo) → All Asking (get_status_line o drivers)
unfolding get_status_line handle_get_status
get_status-Asks none drivers = (tt, tt)
get_status-Asks (some (pid, rest)) drivers =
    let P : List Effect → Type 0 = λ es. All Asking es in
    Option-both P (find_driver pid drivers) _ _ (tt, tt) λ drv. (inr refl, tt)

get_drivers-Asks : (drivers : List DriverInfo) → All Asking (handle_get_drivers drivers)
unfolding handle_get_drivers
get_drivers-Asks [] = (tt, tt)
get_drivers-Asks (d ∷ ds) = all (d ∷ ds)
  where
    all :
        (es : List DriverInfo)
        → All Asking (map (λ drv. writes drv.req_fd (request msg_status_req 0)) es)
    all [] = tt
    all (e ∷ es) = (inr refl, all es)

create-Asks : (fork : Fork) (drivers : List DriverInfo) → Asks (handle_create_driver fork drivers)
unfolding handle_create_driver fork_driver
create-Asks fork_error drivers = if_both Asks (leb max_drivers (length drivers)) _ _ tt (tt, tt)
create-Asks (forked p q r) drivers = if_both Asks (leb max_drivers (length drivers)) _ _ tt (tt, tt)

run_command-Asks :
    (cmd buf : Bytes) (fork : Fork) (drivers : List DriverInfo)
    → Asks (run_command cmd buf fork drivers)
unfolding run_command
run_command-Asks cmd buf fork drivers =
    if_both Asks (str_eq cmd (codes "create_driver")) _ _ (create-Asks fork drivers) (
      if_both Asks (str_eq cmd (codes "send_task")) _ _ (send_task-Asks (scan_task buf) drivers) (
        if_both Asks (str_eq cmd (codes "get_status")) _ _ (get_status-Asks (scan_pid buf) drivers)
          (if_both Asks (str_eq cmd (codes "get_drivers")) _ _ (get_drivers-Asks drivers)
            (if_both Asks (str_eq cmd (codes "exit")) _ _ (tt, tt) (tt, tt)))))

pub process_cli_input-Asks :
    (buf : Bytes) (fork : Fork) (drivers : List DriverInfo)
    → Asks (process_cli_input buf fork drivers)
unfolding process_cli_input
process_cli_input-Asks buf fork drivers =
    elim (scan_word 63 (skip_space buf))
      as (λ cmd. Asks (elim cmd as (λ _. List DriverInfo × List Effect) [
        | [] ↦ (drivers, [])
        | c ∷ s ↦ run_command (c ∷ s) buf fork drivers
      ])) [ [] ↦ tt | c ∷ s ↦ run_command-Asks (c ∷ s) buf fork drivers ]

pub written-requests : (fd : ℕ) (es : List Effect) → All Asking es → All IsRequest (written fd es)
written-requests fd [] h = tt
written-requests fd (writes k msg ∷ es) h =
    if_both (All IsRequest) (k == fd) _ _ (h.0, written-requests fd es h.1)
      (written-requests fd es h.1)
written-requests fd (prints l ∷ es) h = written-requests fd es h.1
written-requests fd (exits ∷ es) h = written-requests fd es h.1
