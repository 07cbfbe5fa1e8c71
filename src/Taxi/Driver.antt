-- ===== src/Taxi/Driver.antt =====
-- module3/task10/driver.c and common.h. The state of a driver is what its timer has left, in nanoseconds,
-- 0 for a timer that is not armed. `timerfd_settime` is a parameter: from the seconds of a task, as an
-- `int` in 32 bits, and what the timer had, to what it has then.
use eltex_practice.Base.{
  ℕ, ◌+◌, ◌-◌, ◌/◌, ◌%◌, Bool, ◌||◌, List, [], ◌∷◌, ◌++◌, Option, none, some, ltb, if◌then◌else◌,
}

-- `other` stands for every value from `MSG_COUNT` on.
pub data MsgType : Type 0 where
  msg_task msg_status_req msg_status_rsp msg_ack msg_busy other : MsgType

pub record IpcMsg : Type 0 where
  pub msg_type : MsgType
  pub payload : ℕ
  pub driver_pid : ℕ

abbrev pub second : ℕ
second = 1000000000

-- Whether the timer runs, and what it has left in seconds, rounded up.
unfoldable pub check_timer_state : ℕ → Bool × ℕ
check_timer_state it_value =
    let tv_sec = it_value / second in
    let tv_nsec = it_value % second in
    (ltb 0 tv_sec || ltb 0 tv_nsec, tv_sec + (if ltb 0 tv_nsec then 1 else 0))

-- What becomes of a driver: a message on its FIFO, or time.
pub data Event : Type 0 where
  receives : IpcMsg → Event
  elapses : ℕ → Event

abbrev pub Handler : Type 0
Handler = ℕ → IpcMsg → ℕ × IpcMsg

-- One message in the loop of `driver_run`: the timer, and the reply if the table has a handler.
unfoldable pub call : Option Handler → ℕ → IpcMsg → ℕ × List IpcMsg
call none timer msg = (timer, [])
call (some handler) timer msg = let (timer', reply) = handler timer msg in (timer', reply ∷ [])

module _ (timerfd_settime : ℕ → ℕ → ℕ) (getpid : ℕ) where
  -- The timer afterwards, and the reply.
  unfoldable pub handle_task_cmd : ℕ → IpcMsg → ℕ × IpcMsg
  handle_task_cmd timer msg =
      let (is_busy, rem_time) = check_timer_state timer in
      if is_busy
      then (timer, record { msg_type = msg_busy; payload = rem_time; driver_pid = getpid })
      else (
        timerfd_settime msg.payload timer,
        record { msg_type = msg_ack; payload = 0; driver_pid = getpid },
      )

  unfoldable pub handle_status_req_cmd : ℕ → IpcMsg → ℕ × IpcMsg
  handle_status_req_cmd timer msg =
      let (is_busy, rem_time) = check_timer_state timer in
      (
        timer,
        record {
          msg_type = msg_status_rsp;
          payload = (if is_busy then rem_time else 0);
          driver_pid = getpid;
        },
      )

  -- The table `driver_handlers`, which has no handler for the other types.
  unfoldable pub driver_handlers : MsgType → Option Handler
  driver_handlers msg_task = some handle_task_cmd
  driver_handlers msg_status_req = some handle_status_req_cmd
  driver_handlers msg_status_rsp = none
  driver_handlers msg_ack = none
  driver_handlers msg_busy = none
  driver_handlers other = none

  unfoldable pub handle_message : ℕ → IpcMsg → ℕ × List IpcMsg
  handle_message timer msg = call (driver_handlers msg.msg_type) timer msg

  -- `driver_run` over what happens to it: the timer at the end, and the replies in order.
  unfoldable pub driver_run : List Event → ℕ → ℕ × List IpcMsg
  driver_run [] timer = (timer, [])
  driver_run (elapses t ∷ events) timer = driver_run events (timer - t)
  driver_run (receives msg ∷ events) timer =
      let (timer', replies) = handle_message timer msg in
      let (timer'', later) = driver_run events timer' in (timer'', replies ++ later)
