-- ===== src/Taxi/Commands.antt =====
-- From a command of the user through a driver to the line on the terminal, and what the table of drivers
-- keeps: module3/task10.
use eltex_practice.Base.{
  ℕ, zero, suc, ◌-◌, ◌<◌, ◌≤◌, ◌^◌, ◌≡◌, refl, ap, sym, subst, ◌∙◌, true, false, List, [], ◌∷◌,
  ◌++◌, some, arith, length, length-append, any, leb, ◌==◌, if◌then◌else◌, Bytes, codes, show,
  scan_int, scan_int-show, scan_word, skip_space, str_eq, Bool-cases, inl, inr, append_assoc,
  append-nil,
}
use eltex_practice.Taxi.Driver.{msg_task, IpcMsg, handle_message}
use eltex_practice.Taxi.Timing.{
  seconds_up, handle_task-idle, handle_task-running, busy_reply, ack_reply,
}
use eltex_practice.Taxi.Dispatcher.{
  DriverInfo, max_drivers, accepted, busy, Effect, writes, prints, find_driver, Fork, fork_error,
  forked, fork_driver, handle_create_driver, request, handle_send_task, skip_word, scan_pid,
  scan_task, send_task_line, run_command, process_cli_input, handle_ack, handle_busy, resp_handlers,
  pid_of, process_driver_message, Ready, input, response, handle_ready, has_exited, server_run,
}

-- `find_driver` finds the first entry with the pid.
find_driver-append :
    (before after : List DriverInfo) (d : DriverInfo)
    → any (λ e. e.pid == d.pid) before ≡ false
    → find_driver d.pid (before ++ d ∷ after) ≡ some d
unfolding find_driver
find_driver-append [] after d h = ground arith
find_driver-append (e ∷ before) after d h = ground (arith, find_driver-append before after d)

-- The pid of a descriptor is that of the last entry with it.
pid_of-none :
    (fd p : ℕ) (after : List DriverInfo)
    → any (λ e. e.rsp_fd == fd) after ≡ false
    → pid_of fd p after ≡ p
unfolding pid_of
pid_of-none fd p [] h = refl
pid_of-none fd p (e ∷ after) h =
    let t : (e.rsp_fd == fd) ≡ false = ground arith in
    rw (t) (pid_of-none fd p after (ground arith))

pid_of-append :
    (p : ℕ) (before after : List DriverInfo) (d : DriverInfo)
    → any (λ e. e.rsp_fd == d.rsp_fd) after ≡ false
    → pid_of d.rsp_fd p (before ++ d ∷ after) ≡ d.pid
unfolding pid_of
pid_of-append p [] after d h =
    let t : (d.rsp_fd == d.rsp_fd) ≡ true = ground arith in
    rw (t, pid_of) (pid_of-none d.rsp_fd d.pid after h)
pid_of-append p (e ∷ before) after d h =
    pid_of-append (if e.rsp_fd == d.rsp_fd then e.pid else p) before after d h

abbrev pub task_text : ℕ → ℕ → Bytes
task_text pid n = codes "send_task " ++ (show pid ++ 32 ∷ (show n ++ 10 ∷ []))

scan_int-blank : (s : Bytes) → scan_int (32 ∷ s) ≡ scan_int s
unfolding scan_int skip_space
scan_int-blank s = refl

scan_pid-task_text :
    (pid n : ℕ) → pid < 2 ^ 31 → scan_pid (task_text pid n) ≡ some (pid, 32 ∷ (show n ++ 10 ∷ []))
unfolding scan_pid skip_word skip_space
scan_pid-task_text pid n h =
    scan_int-blank (show pid ++ 32 ∷ (show n ++ 10 ∷ []))
    ∙ scan_int-show pid 32 (show n ++ 10 ∷ []) h refl

scan_task-some :
    (buf rest rest' : Bytes) (pid n : ℕ)
    → scan_pid buf ≡ some (pid, rest)
    → scan_int rest ≡ some (n, rest')
    → scan_task buf ≡ some (pid, n)
unfolding scan_task
scan_task-some buf rest rest' pid n e f = rw (e, scan_task) (rw (f) refl)

scan_task-task_text :
    (pid n : ℕ) → pid < 2 ^ 31 → n < 2 ^ 31 → scan_task (task_text pid n) ≡ some (pid, n)
scan_task-task_text pid n h k =
    scan_task-some (task_text pid n) (32 ∷ (show n ++ 10 ∷ [])) (10 ∷ []) pid n
      (scan_pid-task_text pid n h)
      (scan_int-blank (show n ++ 10 ∷ []) ∙ scan_int-show n 10 [] k refl)

process-task_text :
    (pid n : ℕ) (fork : Fork) (drivers : List DriverInfo)
    → process_cli_input (task_text pid n) fork drivers
      ≡ (drivers, send_task_line (scan_task (task_text pid n)) drivers)
unfolding process_cli_input run_command scan_word skip_space str_eq
process-task_text pid n fork drivers = refl

send_task-found :
    (n : ℕ) (d : DriverInfo) (drivers : List DriverInfo)
    → find_driver d.pid drivers ≡ some d
    → send_task_line (some (d.pid, n)) drivers ≡ writes d.req_fd (request msg_task n) ∷ []
unfolding send_task_line handle_send_task
send_task-found n d drivers e = rw (e, handle_send_task) refl

process-send_task :
    (n : ℕ) (d : DriverInfo) (drivers : List DriverInfo) (fork : Fork)
    → d.pid < 2 ^ 31
    → n < 2 ^ 31
    → find_driver d.pid drivers ≡ some d
    → process_cli_input (task_text d.pid n) fork drivers
      ≡ (drivers, writes d.req_fd (request msg_task n) ∷ [])
process-send_task n d drivers fork p q e =
    process-task_text d.pid n fork drivers
    ∙ rw (scan_task-task_text d.pid n p q, send_task-found n d drivers e) refl

module _ (settime : ℕ → ℕ → ℕ) where
  -- The reply of the driver, and the line that it becomes.
  task-reply :
      (d : DriverInfo) (drivers : List DriverInfo) (n timer : ℕ)
      → pid_of d.rsp_fd (2 ^ 32 - 1) drivers ≡ d.pid
      → (reply : IpcMsg) × ((handle_message settime d.pid timer (request msg_task n)).1
          ≡ reply ∷ [])
        × (process_driver_message d.rsp_fd (some reply) drivers
            ≡ prints (if timer == 0 then accepted d.pid else busy d.pid (seconds_up timer)) ∷ [])
  unfolding process_driver_message resp_handlers handle_ack handle_busy
  task-reply d drivers n zero e =
      (ack_reply settime d.pid, ap (λ r. r.1) (handle_task-idle settime d.pid n), rw (e) refl)
  task-reply d drivers n (suc t) e =
      let positive : (suc t == 0) ≡ false = ground arith in
      (
        busy_reply settime d.pid (suc t),
        ap (λ r. r.1) (handle_task-running settime d.pid (suc t) n (omega arith)),
        rw (e, positive) refl,
      )

  -- A line "send_task pid n" becomes one request to the FIFO of that driver, the driver gives one reply,
  -- and from it the server prints that the driver accepted, if its timer is 0, or else the seconds it is still
  -- busy, rounded up, under the driver's pid. No entry before the driver's has its pid, none behind it its
  -- reply descriptor; pid and n are below 2^31.
  pub send_task-answer :
      (before after : List DriverInfo) (d : DriverInfo) (n timer : ℕ) (fork : Fork)
      → d.pid < 2 ^ 31
      → n < 2 ^ 31
      → any (λ e. e.pid == d.pid) before ≡ false
      → any (λ e. e.rsp_fd == d.rsp_fd) after ≡ false
      → (process_cli_input (task_text d.pid n) fork (before ++ d ∷ after)
          ≡ (before ++ d ∷ after, writes d.req_fd (request msg_task n) ∷ []))
        × ((reply : IpcMsg) × ((handle_message settime d.pid timer (request msg_task n)).1
              ≡ reply ∷ [])
            × (process_driver_message d.rsp_fd (some reply) (before ++ d ∷ after)
                ≡ prints (if timer == 0 then accepted d.pid else busy d.pid (seconds_up timer))
                  ∷ []))
  send_task-answer before after d n timer fork p q u v = (
    process-send_task n d (before ++ d ∷ after) fork p q (find_driver-append before after d u),
    task-reply d (before ++ d ∷ after) n timer (pid_of-append (2 ^ 32 - 1) before after d v),
  )

-- The table has only grown, and within its array.
abbrev pub GrownFrom : List DriverInfo → List DriverInfo → Type 0
GrownFrom drivers drivers' =
    (more : List DriverInfo) × (drivers' ≡ drivers ++ more)
    × (length (drivers ++ more) ≤ max_drivers)

same-GrownFrom :
    (drivers : List DriverInfo) → length drivers ≤ max_drivers → GrownFrom drivers drivers
same-GrownFrom drivers h = ([], sym (append-nil drivers), omega (arith, length-append drivers []))

fork_driver-GrownFrom :
    (fork : Fork) (drivers : List DriverInfo)
    → length drivers < max_drivers
    → GrownFrom drivers (fork_driver fork drivers).0
unfolding fork_driver
fork_driver-GrownFrom fork_error drivers h = same-GrownFrom drivers (omega arith)
fork_driver-GrownFrom (forked p q r) drivers h =
    let d : DriverInfo = record { pid = p; req_fd = q; rsp_fd = r } in
    (d ∷ [], refl, omega (arith, length-append drivers (d ∷ [])))

create-GrownFrom :
    (fork : Fork) (drivers : List DriverInfo)
    → length drivers ≤ max_drivers
    → GrownFrom drivers (handle_create_driver fork drivers).0
unfolding handle_create_driver
create-GrownFrom fork drivers h = elim (Bool-cases (leb max_drivers (length drivers))) [
  | inl e ↦ rw (e) (same-GrownFrom drivers h)
  | inr e ↦ rw (e) (fork_driver-GrownFrom fork drivers (ground arith))
]

run_command-same :
    (cmd buf : Bytes) (fork : Fork) (drivers : List DriverInfo)
    → str_eq cmd (codes "create_driver") ≡ false
    → (run_command cmd buf fork drivers).0 ≡ drivers
unfolding run_command
run_command-same cmd buf fork drivers f = rw (f) (ground arith)

run_command-GrownFrom :
    (cmd buf : Bytes) (fork : Fork) (drivers : List DriverInfo)
    → length drivers ≤ max_drivers
    → GrownFrom drivers (run_command cmd buf fork drivers).0
unfolding run_command
run_command-GrownFrom cmd buf fork drivers h =
    elim (Bool-cases (str_eq cmd (codes "create_driver"))) [
      | inl e ↦ rw (e) (create-GrownFrom fork drivers h)
      | inr e ↦
          subst (GrownFrom drivers) (sym (run_command-same cmd buf fork drivers e))
            (same-GrownFrom drivers h)
    ]

handle_ready-GrownFrom :
    (r : Ready) (drivers : List DriverInfo)
    → length drivers ≤ max_drivers
    → GrownFrom drivers (handle_ready r drivers).0
unfolding handle_ready process_cli_input
handle_ready-GrownFrom (response fd msg) drivers h = same-GrownFrom drivers h
handle_ready-GrownFrom (input buf fork) drivers h =
    elim (scan_word 63 (skip_space buf))
      as (λ cmd.
        GrownFrom drivers
          (elim cmd as (λ _. List DriverInfo × List Effect) [
            | [] ↦ (drivers, [])
            | c ∷ s ↦ run_command (c ∷ s) buf fork drivers
          ]).0) [
            | [] ↦ same-GrownFrom drivers h
            | c ∷ s ↦ run_command-GrownFrom (c ∷ s) buf fork drivers h
          ]

GrownFrom-then : (a b c : List DriverInfo) → GrownFrom a b → GrownFrom b c → GrownFrom a c
GrownFrom-then a b c (m, e, h) (n, f, k) =
    let g : b ++ n ≡ a ++ (m ++ n) = ap (λ x. x ++ n) e ∙ append_assoc a m n in
    (m ++ n, f ∙ g, subst (λ x. length x ≤ max_drivers) g k)

-- Whatever the user types and the drivers answer, the table never holds more than 100 drivers, if it did not
-- at first, and its entries stay as they are at their places.
pub server_run-GrownFrom :
    (rs : List Ready) (drivers : List DriverInfo)
    → length drivers ≤ max_drivers
    → GrownFrom drivers (server_run rs drivers).0
unfolding server_run
server_run-GrownFrom [] drivers h = same-GrownFrom drivers h
server_run-GrownFrom (r ∷ rs) drivers h =
    let drivers' = (handle_ready r drivers).0 in
    let one = handle_ready-GrownFrom r drivers h in
    let size : length drivers' ≤ max_drivers =
      subst (λ x. length x ≤ max_drivers) (sym one.1) one.2 in
    let rest = server_run-GrownFrom rs drivers' size in
    elim (Bool-cases (has_exited (handle_ready r drivers).1)) [
      | inl e ↦ rw (e) one
      | inr e ↦ rw (e) (GrownFrom-then drivers drivers' (server_run rs drivers').0 one rest)
    ]
