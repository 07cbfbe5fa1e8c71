-- ===== src/MqChat/Delivery.antt =====
-- From the sending thread of one program through the queue to the receiving thread of the other:
-- module3/task03. `mq_receive` is a parameter: it takes a message out of what the queue holds, oldest first.
use eltex_practice.Base.{
  ℕ, ◌≤◌, ◌<◌, ◌≡◌, refl, ap, ap₂, sym, subst, ◌∙◌, true, List, [], ◌∷◌, ◌++◌, map, Option, none,
  some, Bytes, codes, arith, All, All-append, append_assoc, append-nil, length, ltb,
  until_nul_whole, if◌then◌else◌, Bool-cases, inl, inr,
}
use eltex_practice.MqChat.Talk.{
  Message, Received, receive_thread_func, Input, peer_left, chat_loop, run_chat_loop, fits,
  exit_priority,
}
use eltex_practice.MqChat.Session.{
  IsText, text, turn, message, IsLeaving, chat_loop-turns, chat_loop-leave, receive-sent,
}

-- `MAX_MESSAGES`, the capacity of a queue.
abbrev pub max_messages : ℕ
max_messages = 10

abbrev pub Queue : Type 0
Queue = List Message

-- What is documented of `mq_receive`: it takes the oldest of the messages of the highest priority, and waits
-- at an empty queue.
pub record IsReceive (receive : Queue → Option (Message × Queue)) : Type 0 where
  pub empty : receive [] ≡ none
  pub oldest :
      (m : Message) (before after : Queue)
      → All (λ x. x.1 < m.1) before
      → All (λ x. x.1 ≤ m.1) after
      → receive (before ++ m ∷ after) ≡ some (m, before ++ after)

-- The moves of the two threads: the sender's next message enters the queue, unless that is full and the sender
-- waits; or the receiver takes a message, unless there is none and it waits.
pub data Move : Type 0 where
  sends receives : Move

-- The message of leaving.
abbrev pub farewell : Message
farewell = (codes "EXIT", exit_priority)

texts_below : (texts : List Bytes) → All (λ x. x.1 < exit_priority) (map message texts)
texts_below [] = tt
texts_below (s ∷ texts) = (omega arith, texts_below texts)

texts_equal : (texts : List Bytes) → All (λ x. x.1 ≤ 1) (map message texts)
texts_equal [] = tt
texts_equal (s ∷ texts) = (omega arith, texts_equal texts)

messages-append :
    (texts : List Bytes) (s : Bytes)
    → map message texts ++ message s ∷ [] ≡ map message (texts ++ s ∷ [])
messages-append [] s = refl
messages-append (t ∷ texts) s = ap (◌∷◌ (message t)) (messages-append texts s)

-- The lines are the first of these texts, and every byte was written inside the buffer.
pub record ShowsFirst (texts : List Bytes) (r : Received) : Type 0 where
  pub lost : List Bytes
  pub split : r.lines ++ lost ≡ texts
  pub inside : r.in_bounds ≡ true

-- The receiver takes each message before the next is sent.
abbrev pub in_step : List Bytes → List Move
in_step [] = sends ∷ receives ∷ []
in_step (s ∷ texts) = sends ∷ receives ∷ in_step texts

-- What the loop of the receiver's program meets of what its receiving thread came to.
abbrev pub ending : Received → List Input
ending r = if r.peer_exited then peer_left ∷ [] else []

module _ (receive : Queue → Option (Message × Queue)) where
  -- What the receiver gets of the messages to send and of those in the queue.
  abbrev pub arrivals : List Move → List Message → Queue → List Message
  arrivals [] ms q = []
  arrivals (sends ∷ ts) [] q = arrivals ts [] q
  arrivals (sends ∷ ts) (m ∷ ms) q =
      if ltb (length q) max_messages then arrivals ts ms (q ++ m ∷ []) else arrivals ts (m ∷ ms) q
  arrivals (receives ∷ ts) ms q = elim (receive q) [
    | none ↦ arrivals ts ms q
    | some (m, rest) ↦ m ∷ arrivals ts ms rest
  ]

  abbrev pub shown : List Move → List Message → Queue → Received
  shown ts ms q = receive_thread_func (map some (arrivals ts ms q))

  arrivals-receives :
      (ts : List Move) (ms : List Message) (q : Queue) (m : Message) (rest : Queue)
      → receive q ≡ some (m, rest)
      → arrivals (receives ∷ ts) ms q ≡ m ∷ arrivals ts ms rest
  arrivals-receives ts ms q m rest e =
      ap
        (λ o. elim o as (λ _. List Message) [
          | none ↦ arrivals ts ms q
          | some (m, rest) ↦ m ∷ arrivals ts ms rest
        ])
        e

  arrivals-waits :
      (ts : List Move) (ms : List Message) (q : Queue)
      → receive q ≡ none
      → arrivals (receives ∷ ts) ms q ≡ arrivals ts ms q
  arrivals-waits ts ms q e =
      ap
        (λ o. elim o as (λ _. List Message) [
          | none ↦ arrivals ts ms q
          | some (m, rest) ↦ m ∷ arrivals ts ms rest
        ])
        e

  module _ (law : IsReceive receive) where
    receive-text :
        (s : Bytes) (pending : List Bytes)
        → receive (map message (s ∷ pending)) ≡ some (message s, map message pending)
    receive-text s pending =
        law.oldest (message s) [] (map message pending) tt (texts_equal pending)

    receive-farewell :
        (pending : List Bytes)
        → receive (map message pending ++ farewell ∷ []) ≡ some (farewell, map message pending)
    receive-farewell pending =
        law.oldest farewell (map message pending) [] (texts_below pending) tt
        ∙ ap (λ q. some (farewell, q)) (append-nil (map message pending))

    -- Once the message of leaving is in the queue no text comes any more.
    shown-farewell :
        (ts : List Move) (pending : List Bytes)
        → ShowsFirst pending (shown ts [] (map message pending ++ farewell ∷ []))
    unfolding receive_thread_func
    shown-farewell [] pending = record { lost = pending; split = refl; inside = refl }
    shown-farewell (sends ∷ ts) pending = shown-farewell ts pending
    shown-farewell (receives ∷ ts) pending =
        subst (λ got. ShowsFirst pending (receive_thread_func (map some got)))
          (sym (
            arrivals-receives ts [] (map message pending ++ farewell ∷ []) farewell
              (map message pending) (receive-farewell pending)))
          (record { lost = pending; split = refl; inside = refl })

    shows_text :
        (s : Bytes) (texts : List Bytes) (got : List Message)
        → IsText s
        → ShowsFirst texts (receive_thread_func (map some got))
        → ShowsFirst (s ∷ texts) (receive_thread_func (map some (message s ∷ got)))
    unfolding receive_thread_func
    shows_text _ texts got (text c s h e l) v =
        let room : fits (c ∷ s) ≡ true = ground arith in
        rw (room) (record {
          lost = v.lost;
          split = ap₂ ◌∷◌ (until_nul_whole (c ∷ s) h) v.split;
          inside = v.inside;
        })

    -- Whatever the moves, the receiver shows the first of the texts.
    shown-ShowsFirst :
        (ts : List Move) (texts pending : List Bytes)
        → All IsText texts
        → All IsText pending
        → ShowsFirst
            (pending ++ texts)
            (shown ts (map message texts ++ farewell ∷ []) (map message pending))
    unfolding receive_thread_func
    shown-ShowsFirst [] texts pending h k = record {
      lost = pending ++ texts;
      split = refl;
      inside = refl;
    }
    shown-ShowsFirst (sends ∷ ts) [] pending h k =
        elim (Bool-cases (ltb (length (map message pending)) max_messages)) [
          | inl t ↦ rw (t) (rw (append-nil pending) (shown-farewell ts pending))
          | inr t ↦ rw (t) (shown-ShowsFirst ts [] pending h k)
        ]
    shown-ShowsFirst (sends ∷ ts) (s ∷ texts) pending h k =
        elim (Bool-cases (ltb (length (map message pending)) max_messages)) [
          | inl t ↦ rw (t) (
              rw (messages-append pending s, sym (append_assoc pending (s ∷ []) texts))
                (shown-ShowsFirst ts texts (pending ++ s ∷ []) h.1
                  (All-append IsText pending (s ∷ []) k (h.0, tt))))
          | inr t ↦ rw (t) (shown-ShowsFirst ts (s ∷ texts) pending h k)
        ]
    shown-ShowsFirst (receives ∷ ts) texts [] h k =
        subst (λ got. ShowsFirst texts (receive_thread_func (map some got)))
          (sym (arrivals-waits ts (map message texts ++ farewell ∷ []) [] law.empty))
          (shown-ShowsFirst ts texts [] h tt)
    shown-ShowsFirst (receives ∷ ts) texts (s ∷ pending) h k =
        let ms = map message texts ++ farewell ∷ [] in
        subst (λ got. ShowsFirst (s ∷ (pending ++ texts)) (receive_thread_func (map some got)))
          (sym (
            arrivals-receives ts ms (map message (s ∷ pending)) (message s) (map message pending)
              (receive-text s pending)))
          (shows_text s (pending ++ texts) (arrivals ts ms (map message pending)) k.0
            (shown-ShowsFirst ts texts pending h k.1))

    arrivals-in_step :
        (texts : List Bytes)
        → arrivals (in_step texts) (map message texts ++ farewell ∷ []) []
          ≡ map message texts ++ farewell ∷ []
    arrivals-in_step [] = rw (receive-farewell []) refl
    arrivals-in_step (s ∷ texts) =
        rw (receive-text s []) (ap (◌∷◌ (message s)) (arrivals-in_step texts))

    -- One side types texts and leaves, by the command, the end of the input or the signal: its loop ends.
    -- Whatever the moves of both threads, the other side shows the first of the texts, each once, in order and as
    -- typed, and writes only inside its buffer; the message of leaving overtakes the texts that are still in the
    -- queue, and these are lost. Where the receiver takes each message before the next is sent, it shows all the
    -- texts and finds that the first side has left, which ends the loop of its own program with its own texts
    -- sent and no message of leaving in return.
    pub receive_thread_func-run_chat_loop :
        (ts : List Move) (texts replies : List Bytes) (input : Input) (unread others : List Input)
        → All IsText texts
        → All IsText replies
        → IsLeaving input
        → let first = run_chat_loop true (map turn texts ++ input ∷ unread) in
          let all = shown (in_step texts) first.sent [] in
          (first.ended ≡ true)
          × ShowsFirst texts (shown ts first.sent [])
          × (all ≡ record { lines = texts; peer_exited = true; in_bounds = true })
          × (run_chat_loop true (map turn replies ++ (ending all ++ others))
              ≡ record { ended = true; sent = map message replies })
    unfolding run_chat_loop chat_loop
    receive_thread_func-run_chat_loop ts texts replies input unread others h k e =
        let first =
          chat_loop-turns texts (input ∷ unread) h
          ∙ ap (λ t. record { ended = t.ended; sent = map message texts ++ t.sent })
              (chat_loop-leave input unread e) in
        let whole : shown (in_step texts) (map message texts ++ farewell ∷ []) []
            ≡ record { lines = texts; peer_exited = true; in_bounds = true } =
          ap (λ ms. receive_thread_func (map some ms))
            (arrivals-in_step texts ∙ sym (append-nil (map message texts ++ farewell ∷ [])))
          ∙ received_all texts h in
        rw first (
          refl,
          shown-ShowsFirst ts texts [] h tt,
          whole,
          ap (λ r. chat_loop (map turn replies ++ (ending r ++ others))) whole
              ∙ chat_loop-turns replies (peer_left ∷ others) k
              ∙ ap (λ m. record { ended = true; sent = m }) (append-nil (map message replies)),
        )
      where
        received_all :
            (texts : List Bytes)
            → All IsText texts
            → receive_thread_func (map some ((map message texts ++ farewell ∷ []) ++ []))
              ≡ record { lines = texts; peer_exited = true; in_bounds = true }
        received_all texts h =
            ap (λ ms. receive_thread_func (map some ms))
              (append-nil (map message texts ++ farewell ∷ []))
            ∙ ap receive_thread_func
                (sym (append-nil (map some (map message texts ++ farewell ∷ []))))
            ∙ receive-sent texts [] h
