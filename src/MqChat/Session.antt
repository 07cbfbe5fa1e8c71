-- ===== src/MqChat/Session.antt =====
-- A whole talk over message queues, and what it leaves behind: module3/task03.
use eltex_practice.Base.{
  ℕ, ◌≤◌, ◌≡◌, refl, ap, ◌∙◌, true, false, List, [], ◌∷◌, ◌++◌, map, Option, some, Bytes, codes,
  arith, str_eq, length, Free, All, until_nul_whole, cut_newline, cut_newline-line, Free-line,
  Bool-cases, ◌==◌, ◌⊎◌, inl, inr,
}
use eltex_practice.MqChat.Talk.{
  Message, receive_thread_func, Input, typed, eof, interrupted, leave, say, chat_loop, fits,
}

-- A text that a user can type to send it, with room for the line end in the buffer of 256 bytes.
pub data IsText : Bytes → Type 0 where
  text :
      (c : ℕ) (s : Bytes)
      → Free 0 (c ∷ s)
      → str_eq (c ∷ s) (codes "/exit") ≡ false
      → length (c ∷ s) ≤ 254
      → IsText (c ∷ s)

-- It is typed, and the queue takes it.
abbrev pub turn : Bytes → Input
turn s = typed (s ++ 10 ∷ []) true

abbrev pub message : Bytes → Message
message s = (s, 1)

-- The ways to leave: the end of the input, the signal, the command.
abbrev pub IsLeaving : Input → Type 0
IsLeaving input = (input ≡ eof) ⊎ (input ≡ interrupted) ⊎ (input ≡ turn (codes "/exit"))

say-line :
    (s : Bytes) (more : List Input)
    → Free 0 s
    → chat_loop (turn s ∷ more) ≡ say s true (chat_loop more)
unfolding chat_loop
say-line s more h =
    ap (λ t. say (cut_newline t) true (chat_loop more))
      (until_nul_whole (s ++ 10 ∷ []) (Free-line s h))
    ∙ ap (λ t. say t true (chat_loop more)) (cut_newline-line s)

chat_loop-turn :
    (s : Bytes) (more : List Input)
    → IsText s
    → chat_loop (turn s ∷ more)
      ≡ record { ended = (chat_loop more).ended; sent = message s ∷ (chat_loop more).sent }
chat_loop-turn _ more (text c s h e l) = say-line (c ∷ s) more h ∙ rw (e) refl

pub chat_loop-turns :
    (texts : List Bytes) (more : List Input)
    → All IsText texts
    → chat_loop (map turn texts ++ more)
      ≡ record { ended = (chat_loop more).ended; sent = map message texts ++ (chat_loop more).sent }
chat_loop-turns [] more h = refl
chat_loop-turns (s ∷ texts) more (h, hs) =
    chat_loop-turn s (map turn texts ++ more) h
    ∙ ap (λ t. record { ended = t.ended; sent = message s ∷ t.sent })
        (chat_loop-turns texts more hs)

pub chat_loop-leave :
    (input : Input) (more : List Input) → IsLeaving input → chat_loop (input ∷ more) ≡ leave
unfolding chat_loop str_eq
chat_loop-leave input more (inl e) = rw (e, chat_loop) refl
chat_loop-leave input more (inr (inl e)) = rw (e, chat_loop) refl
chat_loop-leave input more (inr (inr e)) =
    ap (λ i. chat_loop (i ∷ more)) e
    ∙ say-line (codes "/exit") more (refl, (refl, (refl, (refl, (refl, tt)))))

pub receive-sent :
    (texts : List Bytes) (more : List (Option Message))
    → All IsText texts
    → receive_thread_func (map some (map message texts ++ leave.sent) ++ more)
      ≡ record { lines = texts; peer_exited = true; in_bounds = true }
unfolding receive_thread_func
receive-sent [] more h = refl
receive-sent (_ ∷ texts) more (text c s h e l, hs) =
    let room : fits (c ∷ s) ≡ true = ground arith in
    let later = receive-sent texts more hs in
    rw (room, until_nul_whole (c ∷ s) h)
      (ap
        (λ r. record {
          lines = (c ∷ s) ∷ r.lines;
          peer_exited = r.peer_exited;
          in_bounds = r.in_bounds;
        })
        later)

-- A message that fills the buffer puts its terminator behind it.
pub receive-full :
    (m : Bytes) (prio : ℕ) (more : List (Option Message))
    → length m ≡ 256
    → (receive_thread_func (some (m, prio) ∷ more)).in_bounds ≡ false
unfolding receive_thread_func
receive-full m prio more h =
    let full : fits m ≡ false = ground arith in
    elim (Bool-cases (prio == 255)) [ inl e ↦ rw (e, full) refl | inr e ↦ rw (e, full) refl ]
