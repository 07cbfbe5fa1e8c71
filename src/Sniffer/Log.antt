-- ===== src/Sniffer/Log.antt =====
-- What is printed and logged of a packet: `print_payload` and `process_and_log_packet` of
-- module3/task08/packet_processor.c, `format_mac` of sniffer.c. Terminal and log file get the same text.
use eltex_practice.Base.{
  ℕ, ◌+◌, ◌-◌, ◌/◌, ◌%◌, ◌&&◌, ◌||◌, List, [], ◌∷◌, ◌++◌, map, Option, none, some, Bytes, codes,
  show, length, drop, ltb, leb, le32_at, ◌==◌, if◌then◌else◌, ◌>>=◌,
}
use eltex_practice.UdpChat.Packet.{sizeof_packet, msg_join, msg_chat, msg_leave}
use eltex_practice.Sniffer.Parse.{ParsedPacket}

abbrev pub hex_digit : ℕ → ℕ
hex_digit n = if ltb n 10 then 48 + n else 87 + n

-- `%02x` of a byte.
abbrev pub hex2 : ℕ → Bytes
hex2 c = hex_digit (c / 16) ∷ hex_digit (c % 16) ∷ []

-- `sprintf` of the six bytes with colons between them.
unfoldable pub format_mac : Bytes → Bytes
format_mac [] = []
format_mac (c ∷ s) = hex2 c ++ elim s [ [] ↦ [] | d ∷ t ↦ 58 ∷ format_mac s ]

abbrev pub out_char : ℕ → ℕ
out_char c =
    if leb 32 c && leb c 126 then c else if (c == 10) || (c == 13) || (c == 9) then 32 else 46

-- The loop over the bytes in hexadecimal, from the `i`th of `len`; sixteen stand in a line.
unfoldable pub hex_dump : ℕ → ℕ → Bytes → Bytes
hex_dump i len [] = []
hex_dump i len (c ∷ s) =
    (hex2 c ++ 32 ∷ [])
    ++ ((if ((i + 1) % 16 == 0) && ltb i (len - 1) then codes "\n         " else [])
        ++ hex_dump (i + 1) len s)

unfoldable pub print_payload : Bytes → Bytes
print_payload payload =
    (codes "Payload (" ++ show (length payload))
    ++ (codes " bytes):\n  ASCII: "
        ++ (map out_char payload
            ++ (codes "\n  HEX:   " ++ (hex_dump 0 (length payload) payload ++ codes "\n"))))

-- The parts of an entry of the log, in their order.
pub data Entry : Type 0 where
  time : Bytes → Entry
  macs : Bytes → Bytes → Entry
  ips : Bytes → Bytes → Entry
  ports : ℕ → ℕ → Entry
  chat_pid : ℕ → Entry
  chat_nickname : Bytes → Entry
  chat_type : Bytes → Entry
  chat_text : Bytes → Entry
  dump : Bytes → Entry
  no_payload : Entry

-- `%s` of a pointer into the payload: none where no terminator stands there before the payload ends.
unfoldable pub string_at : Bytes → Option Bytes
string_at [] = none
string_at (c ∷ s) =
    let rest = string_at s in
    if c == 0 then some [] else elim rest [ none ↦ none | some t ↦ some (c ∷ t) ]

abbrev pub type_str : ℕ → Bytes
type_str kind =
    if kind == msg_join
    then codes "MSG_JOIN (Вход)"
    else if kind == msg_chat
    then codes "MSG_CHAT (Текст)"
    else if kind == msg_leave
    then codes "MSG_LEAVE (Выход)"
    else codes "UNKNOWN"

-- The text of a chat message, printed for that type only.
unfoldable pub log_text : ℕ → Bytes → Option (List Entry)
log_text kind payload =
    if kind == msg_chat
    then (string_at (drop 40 payload) >>= λ text. some (chat_text text ∷ []))
    else some []

-- The payload read as the packet of the group chat.
unfoldable pub log_chat : Bytes → Option (List Entry)
log_chat payload = string_at (drop 8 payload) >>= λ nickname.
    log_text (le32_at 0 payload) payload >>= λ text. some (
      chat_pid (le32_at 4 payload)
      ∷ chat_nickname nickname
      ∷ chat_type (type_str (le32_at 0 payload))
      ∷ text)

unfoldable pub log_payload : ℕ → Option Bytes → Option (List Entry)
log_payload choice none = some (no_payload ∷ [])
log_payload choice (some payload) =
    if (choice == 1) && (length payload == sizeof_packet)
    then log_chat payload
    else some (dump (print_payload payload) ∷ [])

module _ (inet_ntoa : Bytes → Bytes) where
  -- The entry; none where a string runs over the end of the payload.
  unfoldable pub process_and_log_packet : ParsedPacket → Bytes → ℕ → Option (List Entry)
  process_and_log_packet pkt elapsed choice = log_payload choice pkt.payload >>= λ body. some (
      time elapsed
      ∷ macs (format_mac pkt.src_mac) (format_mac pkt.dest_mac)
      ∷ ips (inet_ntoa pkt.src_ip) (inet_ntoa pkt.dest_ip)
      ∷ ports pkt.src_port pkt.dest_port
      ∷ body)
