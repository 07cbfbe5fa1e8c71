-- ===== src/MqChat/Tests.antt =====
-- Runs of the chat over message queues (module3/task03).
use eltex_practice.Base.{
  ℕ, ◌≤◌, ◌<◌, ◌≡◌, refl, ap, ◌∙◌, true, false, Bytes, List, [], ◌∷◌, ◌++◌, Option, none, some, map,
  arith, codes, str_eq, inr, All, ltb, if◌then◌else◌,
}
use eltex_practice.Resources.{if_both}
use eltex_practice.MqChat.Talk.{Message, Talked, run_chat_loop}
use eltex_practice.MqChat.Queues.{queue_name}
use eltex_practice.MqChat.Session.{IsText, text, turn, message}
use eltex_practice.MqChat.Delivery.{
  Queue, IsReceive, Move, sends, receives, ShowsFirst, shown, in_step, ending,
  receive_thread_func-run_chat_loop,
}

abbrev hello : Bytes
hello = codes "hi"

hello-IsText : IsText hello
unfolding str_eq
hello-IsText = text 104 (105 ∷ []) (refl, (refl, tt)) refl (omega arith)

-- A queue that takes the oldest of the messages of the highest priority.
abbrev behind : Message → Queue → Option (Message × Queue) → Option (Message × Queue)
behind m q none = some (m, q)
behind m q (some (x, rest)) = if ltb m.1 x.1 then some (x, m ∷ rest) else some (m, q)

abbrev highest : Queue → Option (Message × Queue)
highest [] = none
highest (m ∷ q) = behind m q (highest q)

AtMost : ℕ → Option (Message × Queue) → Type 0
AtMost n none = Unit {0}
AtMost n (some (x, rest)) = x.1 ≤ n

behind-AtMost :
    (n : ℕ) (m : Message) (q : Queue) (o : Option (Message × Queue))
    → m.1 ≤ n
    → AtMost n o
    → AtMost n (behind m q o)
unfolding AtMost
behind-AtMost n m q none h k = h
behind-AtMost n m q (some (x, rest)) h k = if_both (AtMost n) (ltb m.1 x.1) _ _ k h

highest-AtMost : (n : ℕ) (q : Queue) → All (λ x. x.1 ≤ n) q → AtMost n (highest q)
unfolding AtMost
highest-AtMost n [] h = tt
highest-AtMost n (m ∷ q) h = behind-AtMost n m q (highest q) h.0 (highest-AtMost n q h.1)

behind-first :
    (m : Message) (q : Queue) (o : Option (Message × Queue))
    → AtMost m.1 o
    → behind m q o ≡ some (m, q)
unfolding AtMost
behind-first m q none h = refl
behind-first m q (some (x, rest)) h = let t : ltb m.1 x.1 ≡ false = ground arith in rw (t) refl

highest-oldest :
    (m : Message) (before after : Queue)
    → All (λ x. x.1 < m.1) before
    → All (λ x. x.1 ≤ m.1) after
    → highest (before ++ m ∷ after) ≡ some (m, before ++ after)
highest-oldest m [] after h k = behind-first m after (highest after) (highest-AtMost m.1 after k)
highest-oldest m (b ∷ before) after h k =
    let t : ltb b.1 m.1 ≡ true = ground arith in
    ap (behind b (before ++ m ∷ after)) (highest-oldest m before after h.1 k) ∙ rw (t) refl

highest-IsReceive : IsReceive highest
highest-IsReceive = record { empty = refl; oldest = highest-oldest }

abbrev two : List Bytes
two = hello ∷ hello ∷ []

abbrev first : Talked
first = run_chat_loop true (map turn two ++ turn (codes "/exit") ∷ [])

-- With both texts and the message of leaving in the queue before the receiver's first turn, and in step.
abbrev late : List Move
late = sends ∷ sends ∷ sends ∷ receives ∷ []

receive_thread_func-run_chat_loop_example :
    (first.ended ≡ true)
    × ShowsFirst two (shown highest late first.sent [])
    × (shown highest (in_step two) first.sent []
        ≡ record { lines = two; peer_exited = true; in_bounds = true })
    × (run_chat_loop true
          (map turn (hello ∷ []) ++ (ending (shown highest (in_step two) first.sent []) ++ []))
        ≡ record { ended = true; sent = map message (hello ∷ []) })
receive_thread_func-run_chat_loop_example =
    receive_thread_func-run_chat_loop highest highest-IsReceive late two (hello ∷ [])
      (turn (codes "/exit")) [] [] (hello-IsText, (hello-IsText, tt)) (hello-IsText, tt)
      (inr (inr refl))

queue_name-slash : queue_name (codes "chat") (codes "_1") ≡ codes "/chat_1"
unfolding queue_name
queue_name-slash = refl
