-- ===== src/UdpChat/Session.antt =====
-- A whole session of the group chat: module3/task06/main.c.
use eltex_practice.Base.{
  cut_newline, cut_newline-line, Free-line, ℕ, zero, suc, ◌≡◌, refl, ap, ap₂, ◌∙◌, Bool, false,
  true, List, [], ◌∷◌, ◌++◌, Option, none, some, Bytes, map, codes, Free, until_nul_whole, str_eq,
  replicate, ◌⊎◌, inl, inr, All,
}
use eltex_practice.UdpChat.Packet.{ChatPacket, build_packet, msg_join, msg_chat, msg_leave}
use eltex_practice.UdpChat.Chat.{
  Event, select_failed, ready, handle_user_input, handle_text, is_exit, main_loop, chat_main,
}

-- A text that a user can type to send it: not empty, no line end or terminator, and not a command.
pub data IsText : Bytes → Type 0 where
  text : (c : ℕ) (s : Bytes) → Free 0 (c ∷ s) → is_exit (c ∷ s) ≡ false → IsText (c ∷ s)

handle-line :
    (pid : ℕ) (nickname s : Bytes)
    → Free 0 s
    → handle_user_input pid nickname (some (s ++ 10 ∷ [])) ≡ handle_text pid nickname s
unfolding handle_user_input
handle-line pid nickname s h =
    ap (λ t. handle_text pid nickname (cut_newline t))
      (until_nul_whole (s ++ 10 ∷ []) (Free-line s h))
    ∙ ap (handle_text pid nickname) (cut_newline-line s)

module _ (pid : ℕ) (nickname stack : Bytes) where
  abbrev pub chat_packet : Bytes → ChatPacket
  chat_packet s = build_packet pid msg_chat nickname (some s)

  handle-IsText :
      (s : Bytes)
      → IsText s
      → ((handle_user_input pid nickname (some (s ++ 10 ∷ []))).running ≡ true)
        × ((handle_user_input pid nickname (some (s ++ 10 ∷ []))).sent ≡ chat_packet s ∷ [])
  unfolding handle_text
  handle-IsText s (text c t h e) = rw (handle-line pid nickname (c ∷ t) h) (rw (e) (refl, refl))

  -- A round in which the user typed a text; anything may have come from the network.
  abbrev pub turn : Option (Option Bytes) × Bytes → Event
  turn t = ready t.0 (some (some (t.1 ++ 10 ∷ []))) false

  -- The events that end a session: a failing `select`, as after the signal, or the command.
  abbrev pub IsEnd : Event → Type 0
  IsEnd e =
      (e ≡ select_failed)
      ⊎ ((r : Option (Option Bytes)) × (b : Bool) × (e
            ≡ ready r (some (some (codes "exit" ++ 10 ∷ []))) b))

  main_loop-end :
      (e : Event) (more : List Event)
      → IsEnd e
      → ((main_loop pid nickname stack (e ∷ more)).running ≡ false)
        × ((main_loop pid nickname stack (e ∷ more)).sent ≡ [])
  unfolding main_loop handle_text str_eq
  main_loop-end e more (inl p) = rw (p, main_loop) (refl, refl)
  main_loop-end e more (inr (r, b, p)) =
      rw (p, main_loop, handle-line pid nickname (codes "exit") (refl, (refl, (refl, (refl, tt)))))
        (refl, refl)

  main_loop-turns :
      (turns : List (Option (Option Bytes) × Bytes)) (e : Event) (more : List Event)
      → All (λ t. IsText t.1) turns
      → IsEnd e
      → ((main_loop pid nickname stack (map turn turns ++ e ∷ more)).running ≡ false)
        × ((main_loop pid nickname stack (map turn turns ++ e ∷ more)).sent
            ≡ map (λ t. chat_packet t.1) turns)
  unfolding main_loop
  main_loop-turns [] e more h p = main_loop-end e more p
  main_loop-turns ((r, s) ∷ turns) e more h p =
      let one = handle-IsText s h.0 in
      let rest = main_loop-turns turns e more h.1 p in
      rw (one.0) (rest.0, ap₂ (λ a b. a ++ b) one.1 rest.1)

  -- A session in which the user types texts and then ends it, by the command or by the signal that breaks
  -- `select`: the program ends, and it sent that it came, the texts in their order, each once, and that it
  -- left. What arrives from the network in between changes nothing of this.
  pub chat_main-turns :
      (turns : List (Option (Option Bytes) × Bytes)) (e : Event) (more : List Event)
      → All (λ t. IsText t.1) turns
      → IsEnd e
      → ((chat_main pid nickname stack (map turn turns ++ e ∷ more)).running ≡ false)
        × ((chat_main pid nickname stack (map turn turns ++ e ∷ more)).sent
            ≡ build_packet pid msg_join nickname none
              ∷ (map (λ t. chat_packet t.1) turns ++ build_packet pid msg_leave nickname none ∷ []))
  unfolding chat_main
  chat_main-turns turns e more h p =
      let loop = main_loop-turns turns e more h p in rw (loop.0, loop.1) (refl, refl)

  -- At the end of the input `select` returns at once for ever, and the program goes on.
  pub main_loop-eof :
      (n : ℕ)
      → main_loop pid nickname stack (replicate n (ready none (some none) false))
        ≡ record { running = true; lines = []; sent = [] }
  unfolding main_loop handle_user_input
  main_loop-eof zero = refl
  main_loop-eof (suc n) =
      ap (λ d. record { running = d.running; lines = d.lines; sent = d.sent }) (main_loop-eof n)
