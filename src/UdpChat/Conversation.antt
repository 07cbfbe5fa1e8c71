-- ===== src/UdpChat/Conversation.antt =====
-- A conversation: what the user of one program types, as another program of the group shows it: module3/task06.
use eltex_practice.Base.{
  ℕ, ◌<◌, ◌^◌, ◌≡◌, refl, ap, ap₂, sym, ◌∙◌, false, List, [], ◌∷◌, ◌++◌, map, Option, none, some,
  Bytes, arith, ◌==◌, All, Fits, append_assoc,
}
use eltex_practice.UdpChat.Packet.{
  ChatPacket, build_packet, packet_bytes, max_nick_len, max_text_len, msg_join, msg_leave,
}
use eltex_practice.UdpChat.Chat.{
  Line, joined, said, left, prompt, handle_incoming_packet, Event, select_failed, ready, main_loop,
  chat_main,
}
use eltex_practice.UdpChat.Delivery.{handle-build_packet}
use eltex_practice.UdpChat.Session.{IsText, chat_packet, turn, IsEnd, chat_main-turns}

-- A round in which a packet arrives and the user types nothing.
abbrev pub arrival : ChatPacket → Event
arrival p = ready (some (some (packet_bytes p))) none false

-- Each text under the nickname, with the prompt behind it.
abbrev pub said_lines : Bytes → List Bytes → List Line
said_lines nickname [] = []
said_lines nickname (s ∷ texts) = said nickname s ∷ prompt ∷ said_lines nickname texts

module _ (me : ℕ) (mine stack : Bytes) where
  -- What the program prints about packets, one after another.
  abbrev pub shown : List ChatPacket → List Line
  shown [] = []
  shown (p ∷ ps) = handle_incoming_packet me stack (some (packet_bytes p)) ++ shown ps

  shown-append : (ps qs : List ChatPacket) → shown (ps ++ qs) ≡ shown ps ++ shown qs
  shown-append [] qs = refl
  shown-append (p ∷ ps) qs =
      let first = handle_incoming_packet me stack (some (packet_bytes p)) in
      ap (λ t. first ++ t) (shown-append ps qs) ∙ sym (append_assoc first (shown ps) (shown qs))

  main_loop-arrivals :
      (ps : List ChatPacket) (more : List Event)
      → (main_loop me mine stack (map arrival ps ++ select_failed ∷ more)).lines ≡ shown ps
  unfolding main_loop
  main_loop-arrivals [] more = refl
  main_loop-arrivals (p ∷ ps) more =
      ap (λ t. handle_incoming_packet me stack (some (packet_bytes p)) ++ t)
        (main_loop-arrivals ps more)

  lines-arrivals :
      (ps : List ChatPacket) (more : List Event)
      → (chat_main me mine stack (map arrival ps ++ select_failed ∷ more)).lines ≡ prompt ∷ shown ps
  unfolding chat_main
  lines-arrivals ps more = ap (λ t. prompt ∷ t) (main_loop-arrivals ps more)

  module _ (pid : ℕ) (nickname : Bytes) (other : (pid == me) ≡ false) (small : pid < 2 ^ 32)
      (short : Fits max_nick_len nickname) where
    shown-turns :
        (his : Bytes) (turns : List (Option (Option Bytes) × Bytes))
        → All (λ t. Fits max_text_len t.1) turns
        → shown (map (λ t. chat_packet pid nickname his t.1) turns)
          ≡ said_lines nickname (map (λ t. t.1) turns)
    shown-turns his [] h = refl
    shown-turns his (t ∷ turns) h =
        ap₂ ◌++◌ (handle-build_packet pid me stack nickname t.1 small short h.0 other).0
          (shown-turns his turns h.1)

    shown-session :
        (his : Bytes) (turns : List (Option (Option Bytes) × Bytes))
        → All (λ t. Fits max_text_len t.1) turns
        → shown (
            build_packet pid msg_join nickname none
            ∷ (map (λ t. chat_packet pid nickname his t.1) turns
                ++ build_packet pid msg_leave nickname none ∷ []))
          ≡ joined nickname pid
            ∷ prompt
            ∷ (said_lines nickname (map (λ t. t.1) turns) ++ left nickname pid ∷ prompt ∷ [])
    shown-session his turns h =
        let empty : Fits max_text_len [] = record { whole = tt; short = omega arith } in
        let ends = handle-build_packet pid me stack nickname [] small short empty other in
        let last : ChatPacket = build_packet pid msg_leave nickname none in
        ap₂ ◌++◌ ends.1 (
          shown-append (map (λ t. chat_packet pid nickname his t.1) turns) (last ∷ [])
          ∙ ap₂ ◌++◌ (shown-turns his turns h) (ap (λ t. t ++ []) ends.2))

    -- The user of one program types texts and then ends it, by the command or by the signal, whatever arrives
    -- in between; another program of the group, whose user types nothing, gets its packets and is ended by the
    -- signal. It shows that the other came, each text once under its nickname and in order, and that it left.
    -- The network loses and reorders nothing, nickname and texts fit their arrays, no text is a command, and the
    -- pids differ and have 32 bits.
    pub chat_main-arrivals :
        (his : Bytes) (turns : List (Option (Option Bytes) × Bytes)) (e : Event)
        (later more : List Event)
        → All (λ t. IsText t.1) turns
        → All (λ t. Fits max_text_len t.1) turns
        → IsEnd pid nickname his e
        → let sent =
            (chat_main pid nickname his (map (turn pid nickname his) turns ++ e ∷ later)).sent in
          (chat_main me mine stack (map arrival sent ++ select_failed ∷ more)).lines
          ≡ prompt
            ∷ joined nickname pid
            ∷ prompt
            ∷ (said_lines nickname (map (λ t. t.1) turns) ++ left nickname pid ∷ prompt ∷ [])
    chat_main-arrivals his turns e later more h fits end =
        let session = chat_main-turns pid nickname his turns e later h end in
        let packets : List ChatPacket =
          build_packet pid msg_join nickname none
          ∷ (map (λ t. chat_packet pid nickname his t.1) turns
              ++ build_packet pid msg_leave nickname none ∷ []) in
        rw session.1
          (lines-arrivals packets more ∙ ap (λ t. prompt ∷ t) (shown-session his turns fits))
