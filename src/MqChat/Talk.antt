-- ===== src/MqChat/Talk.antt =====
-- The two threads of the chat of module3/task03/chat.c: `receive_thread_func` and `run_chat_loop`, and
-- `main` of main.c.
use eltex_practice.Base.{
  ℕ, Bool, true, false, List, [], ◌∷◌, ◌++◌, Option, none, some, Bytes, codes, str_eq, length, ltb,
  until_nul, cut_newline, ◌==◌, if◌then◌else◌,
}
use eltex_practice.Resources.{Effect}
use eltex_practice.MqChat.Queues.{Opening, Session, init_chat_queues, cleanup_chat_queues}

abbrev pub msg_buffer_size : ℕ
msg_buffer_size = 256

abbrev pub exit_priority : ℕ
exit_priority = 255

-- A message in a queue, with its priority.
abbrev pub Message : Type 0
Message = Bytes × ℕ

-- What the receiving thread shows, whether it saw the other side leave, and whether the terminator that it
-- writes behind every message stays in the buffer.
pub record Received : Type 0 where
  pub lines : List Bytes
  pub peer_exited : Bool
  pub in_bounds : Bool

abbrev pub fits : Bytes → Bool
fits message = ltb (length message) msg_buffer_size

-- `mq_receive` gives none for an error. At the end of the list the thread waits, and is cancelled there.
unfoldable pub receive_thread_func : List (Option Message) → Received
receive_thread_func [] = record { lines = []; peer_exited = false; in_bounds = true }
receive_thread_func (none ∷ answers) = record { lines = []; peer_exited = false; in_bounds = true }
receive_thread_func (some (message, prio) ∷ answers) =
    let later = receive_thread_func answers in
    if prio == exit_priority
    then record { lines = []; peer_exited = true; in_bounds = fits message }
    else record {
      lines = until_nul message ∷ later.lines;
      peer_exited = later.peer_exited;
      in_bounds = if fits message then later.in_bounds else false;
    }

-- What the loop of the main thread meets: a line from `fgets` with the success of `mq_send` behind it, the
-- end of the input, the signal, or the end that the receiving thread found; the last two also between the
-- lines.
pub data Input : Type 0 where
  typed : Bytes → Bool → Input
  eof interrupted peer_left : Input

-- Whether the loop has ended, and what was sent.
pub record Talked : Type 0 where
  pub ended : Bool
  pub sent : List Message

abbrev pub leave : Talked
leave = record { ended = true; sent = (codes "EXIT", exit_priority) ∷ [] }

-- One line.
abbrev pub say : Bytes → Bool → Talked → Talked
say [] ok later = later
say (c ∷ s) ok later =
    if str_eq (c ∷ s) (codes "/exit")
    then leave
    else record { ended = later.ended; sent = if ok then (c ∷ s, 1) ∷ later.sent else later.sent }

unfoldable pub chat_loop : List Input → Talked
chat_loop [] = record { ended = false; sent = [] }
chat_loop (eof ∷ inputs) = leave
chat_loop (interrupted ∷ inputs) = leave
chat_loop (peer_left ∷ inputs) = record { ended = true; sent = [] }
chat_loop (typed line ok ∷ inputs) =
    let later = chat_loop inputs in say (cut_newline (until_nul line)) ok later

-- Nothing happens where the receiving thread cannot start.
unfoldable pub run_chat_loop : Bool → List Input → Talked
run_chat_loop false inputs = record { ended = true; sent = [] }
run_chat_loop true inputs = chat_loop inputs

-- The program behind the opening of the queues: whether it ended and with success, none while it goes on;
-- what was sent; and the effects.
abbrev pub after_opening :
    Option Session → List Effect → Talked → Bytes → Option Bool × List Message × List Effect
after_opening none effects talked base_name = (some false, [], effects)
after_opening (some s) effects talked base_name =
    if talked.ended
    then (some true, talked.sent, effects ++ cleanup_chat_queues s base_name)
    else (none, talked.sent, effects)

unfoldable pub chat_main :
    Opening → Bytes → Bool → List Input → Option Bool × List Message × List Effect
chat_main o base_name starts inputs =
    let (session, effects) = init_chat_queues o base_name in
    after_opening session effects (run_chat_loop starts inputs) base_name
