-- ===== src/Taxi/Timing.antt =====
-- What the timer of a driver guarantees: module3/task10/driver.c.
use eltex_practice.Base.{
  ℕ, ◌+◌, ◌-◌, ◌*◌, ◌/◌, ◌<◌, ◌^◌, ◌≡◌, refl, ap, Bool, true, false, List, [], ◌∷◌, ◌++◌, arith,
  All, All-append, append_assoc, append-nil,
}
use eltex_practice.Taxi.Driver.{
  MsgType, msg_task, msg_status_req, msg_status_rsp, msg_ack, msg_busy, other, IpcMsg, second,
  check_timer_state, Event, receives, elapses, handle_task_cmd, handle_status_req_cmd,
  driver_handlers, handle_message, driver_run, call,
}

-- The time that passes in all.
abbrev pub elapsed : List Event → ℕ
elapsed [] = 0
elapsed (receives msg ∷ events) = elapsed events
elapsed (elapses t ∷ events) = t + elapsed events

abbrev pub is_ack : IpcMsg → Bool
is_ack msg = elim msg.msg_type [ msg_ack ↦ true | _ ↦ false ]

-- Whole seconds, rounded up.
abbrev pub seconds_up : ℕ → ℕ
seconds_up t = (t + (second - 1)) / second

check-busy : (t : ℕ) → 0 < t → check_timer_state t ≡ (true, seconds_up t)
unfolding check_timer_state
check-busy t h = ground arith

check-idle : check_timer_state 0 ≡ (false, 0)
unfolding check_timer_state
check-idle = refl

module _ (settime : ℕ → ℕ → ℕ) (pid : ℕ) where
  abbrev pub busy_reply : ℕ → IpcMsg
  busy_reply t = record { msg_type = msg_busy; payload = seconds_up t; driver_pid = pid }

  abbrev pub ack_reply : IpcMsg
  ack_reply = record { msg_type = msg_ack; payload = 0; driver_pid = pid }

  abbrev pub task : ℕ → IpcMsg
  task n = record { msg_type = msg_task; payload = n; driver_pid = 0 }

  abbrev Unchanged : ℕ → ℕ × List IpcMsg → Type 0
  Unchanged t r = (r.0 ≡ t) × All (λ reply. is_ack reply ≡ false) r.1

  call-running :
      (k : MsgType) (t : ℕ) (msg : IpcMsg)
      → 0 < t
      → Unchanged t (call (driver_handlers settime pid k) t msg)
  unfolding call driver_handlers handle_task_cmd handle_status_req_cmd
  call-running msg_task t msg h = rw (check-busy t h) (refl, (refl, tt))
  call-running msg_status_req t msg h = (refl, (refl, tt))
  call-running msg_status_rsp t msg h = (refl, tt)
  call-running msg_ack t msg h = (refl, tt)
  call-running msg_busy t msg h = (refl, tt)
  call-running other t msg h = (refl, tt)

  handle_message-running :
      (t : ℕ) (msg : IpcMsg) → 0 < t → Unchanged t (handle_message settime pid t msg)
  unfolding handle_message
  handle_message-running t msg h = call-running msg.msg_type t msg h

  -- A task that runs is neither replaced nor prolonged, and no other task is accepted before its end.
  pub driver_run-busy :
      (events : List Event) (t : ℕ)
      → elapsed events < t
      → ((driver_run settime pid events t).0 ≡ t - elapsed events)
        × All (λ reply. is_ack reply ≡ false) (driver_run settime pid events t).1
  unfolding driver_run
  driver_run-busy [] t h = (omega arith, tt)
  driver_run-busy (elapses e ∷ events) t h =
      let r = driver_run-busy events (t - e) (omega arith) in (omega (arith, r.0), r.1)
  driver_run-busy (receives msg ∷ events) t h =
      let m = handle_message-running t msg (omega arith) in
      let r = driver_run-busy events t h in
      rw (m.0) (
        r.0,
        All-append (λ reply. is_ack reply ≡ false) (handle_message settime pid t msg).1
            (driver_run settime pid events t).1 m.1 r.1,
      )

  -- Events in sequence.
  driver_run-append :
      (events later : List Event) (t : ℕ)
      → driver_run settime pid (events ++ later) t ≡ (
        (driver_run settime pid later (driver_run settime pid events t).0).0,
        (driver_run settime pid events t).1
            ++ (driver_run settime pid later (driver_run settime pid events t).0).1,
      )
  unfolding driver_run
  driver_run-append [] later t = refl
  driver_run-append (elapses e ∷ events) later t = driver_run-append events later (t - e)
  driver_run-append (receives msg ∷ events) later t =
      let t' = (handle_message settime pid t msg).0 in
      rw
        (
          driver_run-append events later t',
          append_assoc (handle_message settime pid t msg).1 (driver_run settime pid events t').1
              (driver_run settime pid later (driver_run settime pid events t').0).1,
        )
        refl

  pub handle_task-idle :
      (n : ℕ) → handle_message settime pid 0 (task n) ≡ (settime n 0, ack_reply ∷ [])
  unfolding handle_message call driver_handlers handle_task_cmd
  handle_task-idle n = rw (check-idle) refl

  pub handle_task-running :
      (t n : ℕ) → 0 < t → handle_message settime pid t (task n) ≡ (t, busy_reply t ∷ [])
  unfolding handle_message call driver_handlers handle_task_cmd
  handle_task-running t n h = rw (check-busy t h) refl

  driver_run-task :
      (n t : ℕ)
      → driver_run settime pid (receives (task n) ∷ []) t ≡ handle_message settime pid t (task n)
  unfolding driver_run
  driver_run-task n t =
      ap (λ r. ((handle_message settime pid t (task n)).0, r))
        (append-nil (handle_message settime pid t (task n)).1)

  -- What a driver does between two tasks, from the moment when it takes the first.
  module _ (arms : (n old : ℕ) → n < 2 ^ 31 → settime n old ≡ n * second) where
    task-running :
        (n m : ℕ) (events : List Event)
        → n < 2 ^ 31
        → elapsed events < n * second
        → driver_run settime pid (events ++ receives (task m) ∷ []) (settime n 0) ≡ (
          n * second - elapsed events,
          (driver_run settime pid events (n * second)).1
              ++ busy_reply (n * second - elapsed events) ∷ [],
        )
    task-running n m events k h =
        let left = n * second - elapsed events in
        rw
          (
            arms n 0 k,
            driver_run-append events (receives (task m) ∷ []) (n * second),
            (driver_run-busy events (n * second) h).0,
            driver_run-task m left,
            handle_task-running left m (omega arith),
          )
          refl

    -- Where `timerfd_settime` arms the timer for n seconds, n below 2^31: a free driver accepts a task of n
    -- seconds; whatever reaches it before n seconds have passed, it accepts no other, and a task that arrives
    -- then is refused with the seconds that are left, rounded up.
    pub driver_run-tasks :
        (n m : ℕ) (events : List Event)
        → n < 2 ^ 31
        → elapsed events < n * second
        → (between : List IpcMsg) × ((driver_run settime pid
              (receives (task n) ∷ events ++ receives (task m) ∷ [])
              0).1
            ≡ ack_reply ∷ between ++ busy_reply (n * second - elapsed events) ∷ [])
          × All (λ reply. is_ack reply ≡ false) between
    unfolding driver_run
    driver_run-tasks n m events k h = (
      (driver_run settime pid events (n * second)).1,
      rw (handle_task-idle n) (ap (λ r. ack_reply ∷ r.1) (task-running n m events k h)),
      (driver_run-busy events (n * second) h).1,
    )
