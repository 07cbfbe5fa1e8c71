-- ===== src/UdpChat/Tests.antt =====
-- Runs of the group chat (module3/task06).
use eltex_practice.Base.{
  ◌≡◌, refl, Bytes, List, [], ◌∷◌, ◌++◌, map, Option, none, some, arith, codes, inl, str_eq, Fits,
}
use eltex_practice.UdpChat.Packet.{build_packet, packet_bytes, msg_join, msg_chat, msg_leave}
use eltex_practice.UdpChat.Chat.{
  joined, said, left, prompt, handle_incoming_packet, chat_main, select_failed,
}
use eltex_practice.UdpChat.Delivery.{handle-build_packet}
use eltex_practice.UdpChat.Conversation.{arrival, chat_main-arrivals}
use eltex_practice.UdpChat.Session.{IsText, text, turn}

abbrev pub ann : Bytes
ann = codes "Ann"

abbrev pub hi : Bytes
hi = codes "hi"

pub ann-Fits : Fits 32 ann
ann-Fits = record { whole = (refl, (refl, (refl, tt))); short = omega arith }

pub hi-Fits : Fits 512 hi
hi-Fits = record { whole = (refl, (refl, tt)); short = omega arith }

handle-build_packet_example :
    (handle_incoming_packet 8 [] (some (packet_bytes (build_packet 7 msg_chat ann (some hi))))
      ≡ said ann hi ∷ prompt ∷ [])
    × (handle_incoming_packet 8 [] (some (packet_bytes (build_packet 7 msg_join ann none)))
        ≡ joined ann 7 ∷ prompt ∷ [])
    × (handle_incoming_packet 8 [] (some (packet_bytes (build_packet 7 msg_leave ann none)))
        ≡ left ann 7 ∷ prompt ∷ [])
    × (handle_incoming_packet 7 [] (some (packet_bytes (build_packet 7 msg_chat ann (some hi))))
        ≡ [])
    × (handle_incoming_packet 7 [] (some (packet_bytes (build_packet 7 msg_join ann none))) ≡ [])
    × (handle_incoming_packet 7 [] (some (packet_bytes (build_packet 7 msg_leave ann none))) ≡ [])
handle-build_packet_example = handle-build_packet 7 8 [] ann hi (omega arith) ann-Fits hi-Fits refl

hi_IsText : IsText hi
unfolding str_eq
hi_IsText = text 104 (105 ∷ []) (refl, (refl, tt)) refl

abbrev typed : List (Option (Option Bytes) × Bytes)
typed = (none, hi) ∷ (some none, hi) ∷ []

chat_main-arrivals_example :
    let sent = (chat_main 7 ann [] (map (turn 7 ann []) typed ++ select_failed ∷ [])).sent in
    (chat_main 8 [] [] (map arrival sent ++ select_failed ∷ [])).lines
    ≡ prompt
      ∷ joined ann 7
      ∷ prompt
      ∷ said ann hi
      ∷ prompt
      ∷ said ann hi
      ∷ prompt
      ∷ left ann 7
      ∷ prompt
      ∷ []
chat_main-arrivals_example =
    chat_main-arrivals 8 [] [] 7 ann refl (omega arith) ann-Fits [] typed select_failed [] []
      (hi_IsText, (hi_IsText, tt)) (hi-Fits, (hi-Fits, tt)) (inl refl)
