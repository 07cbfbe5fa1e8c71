-- ===== src/Taxi/Tests.antt =====
-- Runs of the taxi service (module3/task10) on concrete drivers. `seconds` sets the timer as Linux does.
use eltex_practice.Base.{
  ℕ, ◌*◌, ◌<◌, ◌≡◌, refl, List, [], ◌∷◌, ◌++◌, none, some, arith, codes, All, ltb, if◌then◌else◌,
  true, false, ◌^◌, ◌+◌, length, ◌⊎◌,
}
use eltex_practice.Taxi.Driver.{
  IpcMsg, Event, receives, elapses, second, driver_run, handle_message, msg_task, msg_status_req,
}
use eltex_practice.Taxi.Timing.{driver_run-tasks, ack_reply, busy_reply, task, is_ack}
use eltex_practice.Taxi.Dispatcher.{
  DriverInfo, input, response, server_run, forked, fork_error, Ready, request, writes, prints, busy,
  process_cli_input, process_driver_message,
}
use eltex_practice.Taxi.Answers.{
  System, Inv, command_step, Reach, here, next, commands, Reach-answered,
}
use eltex_practice.Taxi.Commands.{send_task-answer, server_run-GrownFrom, GrownFrom, task_text}

abbrev seconds : ℕ → ℕ → ℕ
seconds n old = if ltb n (2 ^ 31) then n * second else old

seconds_small : (n old : ℕ) → n < 2 ^ 31 → seconds n old ≡ n * second
seconds_small n old h = ground arith

abbrev status : IpcMsg
status = record { msg_type = msg_status_req; payload = 0; driver_pid = 0 }

abbrev events : List Event
events = elapses second ∷ receives status ∷ elapses 500000000 ∷ receives (task seconds 7 9) ∷ []

driver_run-tasks_example :
    (between : List IpcMsg) × ((driver_run seconds 7
        (receives (task seconds 7 3) ∷ events ++ receives (task seconds 7 4) ∷ [])
        0).1
      ≡ ack_reply seconds 7 ∷ between ++ busy_reply seconds 7 1500000000 ∷ [])
    × All (λ reply. is_ack reply ≡ false) between
driver_run-tasks_example =
    driver_run-tasks seconds 7 seconds_small 3 4 events (omega arith) (omega arith)

abbrev one : DriverInfo
one = record { pid = 41; req_fd = 3; rsp_fd = 4 }

abbrev two : DriverInfo
two = record { pid = 42; req_fd = 5; rsp_fd = 6 }

send_task-answer_example :
    (process_cli_input (task_text 42 30) fork_error (one ∷ two ∷ [])
      ≡ (one ∷ two ∷ [], writes 5 (request msg_task 30) ∷ []))
    × ((reply : IpcMsg) × ((handle_message seconds 42 1500000000 (request msg_task 30)).1
          ≡ reply ∷ [])
        × (process_driver_message 6 (some reply) (one ∷ two ∷ []) ≡ prints (busy 42 2) ∷ []))
send_task-answer_example =
    send_task-answer seconds (one ∷ []) [] two 30 1500000000 fork_error (omega arith) (omega arith)
      refl refl

abbrev rounds : List Ready
rounds = input (codes "create_driver") (forked 43 7 8) ∷ response 8 none ∷ []

server_run-GrownFrom_example : GrownFrom (one ∷ two ∷ []) (server_run rounds (one ∷ two ∷ [])).0
server_run-GrownFrom_example = server_run-GrownFrom rounds (one ∷ two ∷ []) (omega arith)

abbrev start : System
start = record {
  drivers = one ∷ two ∷ [];
  timer = 0;
  requests = [];
  responses = [];
  asked = 0;
  answered = [];
  exited = false;
}

start-Inv : Inv seconds two start
start-Inv = record { requests = tt; responses = tt; balanced = refl }

Reach-answered_example :
    let t = command_step seconds two (task_text 42 30) fork_error start in
    (t.asked ≡ length t.requests + length t.responses + length t.answered)
    × ((t.exited ≡ true)
        ⊎ ((u : System) × Reach seconds two t u
            × (u.requests ≡ [])
            × (u.responses ≡ [])
            × (length u.answered ≡ t.asked)))
Reach-answered_example =
    Reach-answered seconds two start-Inv (next here refl (commands (task_text 42 30) fork_error))
