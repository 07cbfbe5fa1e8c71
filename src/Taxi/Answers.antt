-- ===== src/Taxi/Answers.antt =====
-- The dispatcher and one of its drivers with the two FIFOs between them, in any order of their steps:
-- module3/task10/server.c and driver.c.
use eltex_practice.Base.{
  ℕ, ◌+◌, ◌-◌, ◌≡◌, refl, ap, subst, sym, ◌⊎◌, inl, inr, Bool, true, false, Bool-cases, List, [],
  ◌∷◌, ◌++◌, some, arith, length, length-append, Bytes, All, All-append,
}
use eltex_practice.Resources.{if_both}
use eltex_practice.Taxi.Driver.{
  msg_status_rsp, msg_ack, msg_busy, IpcMsg, check_timer_state, handle_message, call,
  driver_handlers, handle_task_cmd, handle_status_req_cmd,
}
use eltex_practice.Taxi.Dispatcher.{
  DriverInfo, Line, Effect, writes, prints, exits, Fork, process_cli_input, resp_handlers,
  process_driver_message, has_exited,
}
use eltex_practice.Taxi.Requests.{written, IsRequest, process_cli_input-Asks, written-requests}

-- The lines on the terminal.
abbrev pub printed : List Effect → List Line
printed [] = []
printed (writes k msg ∷ es) = printed es
printed (prints l ∷ es) = l ∷ printed es
printed (exits ∷ es) = printed es

-- `timer` is what the driver's timer has left; `asked` counts the messages that the dispatcher wrote to the
-- driver, and `answered` are the lines that it printed about the driver's replies; `exited` says that the
-- command `exit` has ended it.
pub record System : Type 0 where
  pub drivers : List DriverInfo
  pub timer : ℕ
  pub requests : List IpcMsg
  pub responses : List IpcMsg
  pub asked : ℕ
  pub answered : List Line
  pub exited : Bool

-- What a driver puts into its FIFO.
abbrev pub IsReply : IpcMsg → Type 0
IsReply msg =
    (msg.msg_type ≡ msg_ack) ⊎ ((msg.msg_type ≡ msg_busy) ⊎ (msg.msg_type ≡ msg_status_rsp))

module _ (settime : ℕ → ℕ → ℕ) (d : DriverInfo) where
  abbrev pub command_step : Bytes → Fork → System → System
  command_step buf fork s =
      let (drivers, effects) = process_cli_input buf fork s.drivers in
      record s {
        drivers = drivers;
        requests = s.requests ++ written d.req_fd effects;
        asked = s.asked + length (written d.req_fd effects);
        exited = has_exited effects;
      }

  abbrev pub serve_step : IpcMsg → List IpcMsg → System → System
  serve_step msg rest s =
      let (timer, replies) = handle_message settime d.pid s.timer msg in
      record s { timer = timer; requests = rest; responses = s.responses ++ replies }

  abbrev pub answer_step : IpcMsg → List IpcMsg → System → System
  answer_step msg rest s = record s {
    responses = rest;
    answered = s.answered ++ printed (process_driver_message d.rsp_fd (some msg) s.drivers);
  }

  -- The user types a line, the driver takes a request, time passes for the driver, or the dispatcher takes
  -- a reply.
  pub data Step (s : System) : System → Type 0 where
    commands : (buf : Bytes) (fork : Fork) → Step s (command_step buf fork s)
    serves :
        (msg : IpcMsg) (rest : List IpcMsg)
        → s.requests ≡ msg ∷ rest
        → Step s (serve_step msg rest s)
    elapses : (t : ℕ) → Step s (record s { timer = s.timer - t })
    answers :
        (msg : IpcMsg) (rest : List IpcMsg)
        → s.responses ≡ msg ∷ rest
        → Step s (answer_step msg rest s)

  -- Steps until the dispatcher has exited.
  pub data Reach (s : System) : System → Type 0 where
    here : Reach s s
    next : {t u : System} → Reach s t → t.exited ≡ false → Step t u → Reach s u

  -- Each FIFO holds what belongs into it, and every request is still on its way, is answered by a reply on its way,
  -- or has its line.
  pub record Inv (s : System) : Type 0 where
    pub requests : All IsRequest s.requests
    pub responses : All IsReply s.responses
    pub balanced : s.asked ≡ length s.requests + length s.responses + length s.answered

  -- A request gets one reply.
  record OneReply (r : ℕ × List IpcMsg) : Type 0 where
    reply : IpcMsg
    only : r.1 ≡ reply ∷ []
    known : IsReply reply

  handle_task_cmd-reply :
      (timer : ℕ) (msg : IpcMsg) → IsReply (handle_task_cmd settime d.pid timer msg).1
  unfolding handle_task_cmd
  handle_task_cmd-reply timer msg =
      let P : ℕ × IpcMsg → Type 0 = λ r. IsReply r.1 in
      if_both P (check_timer_state timer).0 _ _ (inr (inl refl)) (inl refl)

  handle_message-OneReply :
      (timer : ℕ) (msg : IpcMsg) → IsRequest msg → OneReply (handle_message settime d.pid timer msg)
  unfolding handle_message call driver_handlers handle_status_req_cmd
  handle_message-OneReply timer msg (inl e) =
      subst (λ k. OneReply (call (driver_handlers settime d.pid k) timer msg)) (sym e)
        (record {
          reply = (handle_task_cmd settime d.pid timer msg).1;
          only = refl;
          known = handle_task_cmd-reply timer msg;
        })
  handle_message-OneReply timer msg (inr e) =
      subst (λ k. OneReply (call (driver_handlers settime d.pid k) timer msg)) (sym e)
        (record {
          reply = (handle_status_req_cmd settime d.pid timer msg).1;
          only = refl;
          known = inr (inr refl);
        })

  -- A reply gets one line.
  length-printed :
      (msg : IpcMsg) (drivers : List DriverInfo)
      → IsReply msg
      → length (printed (process_driver_message d.rsp_fd (some msg) drivers)) ≡ 1
  unfolding process_driver_message resp_handlers
  length-printed msg drivers (inl e) = rw e refl
  length-printed msg drivers (inr (inl e)) = rw e refl
  length-printed msg drivers (inr (inr e)) = rw e refl

  command-Inv : (buf : Bytes) (fork : Fork) {s : System} → Inv s → Inv (command_step buf fork s)
  command-Inv buf fork {s} v =
      let effects = (process_cli_input buf fork s.drivers).1 in
      let new = written d.req_fd effects in
      record {
        requests =
            All-append IsRequest s.requests new v.requests
              (written-requests d.req_fd effects (process_cli_input-Asks buf fork s.drivers));
        responses = v.responses;
        balanced = omega (arith, v.balanced, length-append s.requests new);
      }

  serve-Inv :
      (msg : IpcMsg) (rest : List IpcMsg) {s : System}
      → s.requests ≡ msg ∷ rest
      → Inv s
      → Inv (serve_step msg rest s)
  serve-Inv msg rest {s} e v =
      let held : All IsRequest (msg ∷ rest) = subst (All IsRequest) e v.requests in
      let one = handle_message-OneReply s.timer msg held.0 in
      record {
        requests = held.1;
        responses =
            subst (λ rs. All IsReply (s.responses ++ rs)) (sym one.only)
              (All-append IsReply s.responses (one.reply ∷ []) v.responses (one.known, tt));
        balanced = omega (
          arith,
          v.balanced,
          ap length e,
          ap length one.only,
          length-append s.responses (handle_message settime d.pid s.timer msg).1,
        );
      }

  answer-Inv :
      (msg : IpcMsg) (rest : List IpcMsg) {s : System}
      → s.responses ≡ msg ∷ rest
      → Inv s
      → Inv (answer_step msg rest s)
  answer-Inv msg rest {s} e v =
      let held : All IsReply (msg ∷ rest) = subst (All IsReply) e v.responses in
      let lines = printed (process_driver_message d.rsp_fd (some msg) s.drivers) in
      record {
        requests = v.requests;
        responses = held.1;
        balanced = omega (
          arith,
          v.balanced,
          ap length e,
          length-printed msg s.drivers held.0,
          length-append s.answered lines,
        );
      }

  -- Every reachable state keeps the balance.
  keeps-Inv : {s t : System} → Inv s → Reach s t → Inv t
  keeps-Inv v here = v
  keeps-Inv v (next r going (commands buf fork)) = command-Inv buf fork (keeps-Inv v r)
  keeps-Inv v (next r going (serves msg rest e)) = serve-Inv msg rest e (keeps-Inv v r)
  keeps-Inv v (next r going (elapses t)) =
      let w = keeps-Inv v r in
      record { requests = w.requests; responses = w.responses; balanced = w.balanced }
  keeps-Inv v (next r going (answers msg rest e)) = answer-Inv msg rest e (keeps-Inv v r)

  -- The driver can take all its requests, and the dispatcher all replies.
  record Emptied (t : System) : Type 0 where
    state : System
    reached : Reach t state
    inv : Inv state
    same : state.asked ≡ t.asked
    no_requests : state.requests ≡ []
    goes_on : state.exited ≡ false

  serve_all :
      (requests : List IpcMsg) {s t : System}
      → t.requests ≡ requests
      → t.asked ≡ s.asked
      → t.exited ≡ false
      → Inv t
      → Reach s t
      → Emptied s
  serve_all [] {s} {t} e same g v r = record {
    state = t;
    reached = r;
    inv = v;
    same = same;
    no_requests = e;
    goes_on = g;
  }
  serve_all (msg ∷ rest) {s} {t} e same g v r =
      serve_all rest {s = s} {t = serve_step msg rest t} refl same g (serve-Inv msg rest e v)
        (next r g (serves msg rest e))

  answer_all :
      (responses : List IpcMsg) {s t : System}
      → t.responses ≡ responses
      → t.requests ≡ []
      → t.asked ≡ s.asked
      → t.exited ≡ false
      → Inv t
      → Reach s t
      → (u : System) × Reach s u
        × (u.requests ≡ [])
        × (u.responses ≡ [])
        × (length u.answered ≡ s.asked)
  answer_all [] {s} {t} e none_left same g v r =
      (t, r, none_left, e, omega (arith, v.balanced, same, ap length e, ap length none_left))
  answer_all (msg ∷ rest) {s} {t} e none_left same g v r =
      answer_all rest {s = s} {t = answer_step msg rest t} refl none_left same g
        (answer-Inv msg rest e v) (next r g (answers msg rest e))

  -- In every state that is reached from one with the invariant, whatever the user types, whenever the driver takes
  -- its requests and the dispatcher the replies, and however time passes: every request that was written to
  -- the driver is still in its FIFO, or its one reply is in the other, or its one line was printed. And as
  -- long as the user has not typed `exit`, which ends the dispatcher, both FIFOs can be emptied from there,
  -- with exactly one line for each of the requests.
  pub Reach-answered :
      {s t : System}
      → Inv s
      → Reach s t
      → (t.asked ≡ length t.requests + length t.responses + length t.answered)
        × ((t.exited ≡ true)
            ⊎ ((u : System) × Reach t u
                × (u.requests ≡ [])
                × (u.responses ≡ [])
                × (length u.answered ≡ t.asked)))
  Reach-answered {s} {t} v r =
      let w = keeps-Inv v r in
      (
        w.balanced,
        elim (Bool-cases t.exited) [
          | inl over ↦ inl over
          | inr g ↦
              (let served = serve_all t.requests {s = t} {t = t} refl refl g w here in
                inr (
                  answer_all served.state.responses {s = t} {t = served.state} refl
                    served.no_requests served.same served.goes_on served.inv served.reached))
        ],
      )
