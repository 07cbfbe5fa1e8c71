-- ===== src/UdpChat/Packet.antt =====
-- The packet of the group chat and its bytes: module3/task06/chat.h.
use eltex_practice.Base.{
  [], ℕ, ◌++◌, Option, none, some, Bytes, copy_string, field, le32, le32_at, take, drop,
}

abbrev pub max_nick_len : ℕ
max_nick_len = 32

abbrev pub max_text_len : ℕ
max_text_len = 512

-- The values of `MsgType`; the field is an `int`.
abbrev pub msg_join : ℕ
msg_join = 1

abbrev pub msg_chat : ℕ
msg_chat = 2

abbrev pub msg_leave : ℕ
msg_leave = 3

-- The two arrays are given with all their bytes, the two numbers as 32-bit patterns.
pub record ChatPacket : Type 0 where
  pub kind : ℕ
  pub pid : ℕ
  pub nickname : Bytes
  pub text : Bytes

-- The struct in the memory of a little-endian machine, 552 bytes.
abbrev pub sizeof_packet : ℕ
sizeof_packet = 552

abbrev pub packet_bytes : ChatPacket → Bytes
packet_bytes p = le32 p.kind (le32 p.pid (p.nickname ++ p.text))

unfoldable pub packet_of : Bytes → ChatPacket
packet_of b = record {
  kind = le32_at 0 b;
  pid = le32_at 4 b;
  nickname = take max_nick_len (drop 8 b);
  text = take max_text_len (drop 40 b);
}

-- A null pointer leaves the zeroed array.
abbrev pub text_field : Option Bytes → Bytes
text_field none = field max_text_len []
text_field (some text) = copy_string max_text_len text

-- `send_packet` up to `sendto`.
unfoldable pub build_packet : ℕ → ℕ → Bytes → Option Bytes → ChatPacket
build_packet pid kind nickname text = record {
  kind = kind;
  pid = pid;
  nickname = copy_string max_nick_len nickname;
  text = text_field text;
}
