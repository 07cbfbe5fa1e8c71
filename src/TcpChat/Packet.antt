-- ===== src/TcpChat/Packet.antt =====
-- The packet that client and server exchange: module3/task07/common.h.
use eltex_practice.Base.{copy_string, field, ℕ, [], Option, none, some, Bytes}

abbrev pub max_nick_len : ℕ
max_nick_len = 32

abbrev pub max_chunk_size : ℕ
max_chunk_size = 1024

abbrev pub max_filename : ℕ
max_filename = 256

-- `MsgType`; any other value of the field is `other`.
pub data MsgType : Type 0 where
  join chat leave file_start file_data file_end other : MsgType

-- The three arrays are given with all their bytes.
pub record ChatPacket : Type 0 where
  pub kind : MsgType
  pub data_len : ℕ
  pub nickname : Bytes
  pub filename : Bytes
  pub payload : Bytes

-- A null pointer leaves the zeroed array.
abbrev pub copy_if : ℕ → Option Bytes → Bytes
copy_if n none = field n []
copy_if n (some src) = copy_string n src

-- `send_packet` of client.c, up to `write_all`.
unfoldable pub build_packet : MsgType → Bytes → Option Bytes → Option Bytes → ℕ → ChatPacket
build_packet kind nickname text filename data_len = record {
  kind = kind;
  data_len = data_len;
  nickname = copy_string max_nick_len nickname;
  filename = copy_if max_filename filename;
  payload = copy_if max_chunk_size text;
}
