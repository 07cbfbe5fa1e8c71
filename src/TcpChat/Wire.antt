-- ===== src/TcpChat/Wire.antt =====
-- The packet as bytes: module3/task07/common.h.
use eltex_practice.Base.{
  ℕ, suc, ◌<◌, ◌≡◌, refl, ap, sym, ◌∙◌, [], ◌++◌, Option, none, some, Bytes, arith, length,
  length-append, length-field, length-copy_string, take, drop, le32, le32_at, long, ◌^◌,
  append_assoc, take-array, drop-array, if◌then◌else◌, ◌==◌,
}
use eltex_practice.TcpChat.Packet.{
  MsgType, join, chat, leave, file_start, file_data, file_end, other, ChatPacket, max_nick_len,
  max_filename, max_chunk_size, build_packet, copy_if,
}

-- The values of `MsgType`. A field with any other value is `other`, which is written as 0.
abbrev pub code_of : MsgType → ℕ
code_of other = 0
code_of join = 1
code_of chat = 2
code_of leave = 3
code_of file_start = 4
code_of file_data = 5
code_of file_end = 6

abbrev pub kind_of : ℕ → MsgType
kind_of n =
    if n == 1
    then join
    else if n == 2
    then chat
    else if n == 3
    then leave
    else if n == 4
    then file_start
    else if n == 5
    then file_data
    else if n == 6
    then file_end
    else other

-- The struct in the memory of a little-endian machine, 1320 bytes.
abbrev pub sizeof_packet : ℕ
sizeof_packet = 1320

abbrev pub packet_bytes : ChatPacket → Bytes
packet_bytes p = le32 (code_of p.kind) (le32 p.data_len (p.nickname ++ (p.filename ++ p.payload)))

unfoldable pub packet_of : Bytes → ChatPacket
packet_of b = record {
  kind = kind_of (le32_at 0 b);
  data_len = le32_at 4 b;
  nickname = take max_nick_len (drop 8 b);
  filename = take max_filename (drop 40 b);
  payload = take max_chunk_size (drop 296 b);
}

-- What every packet of the programs has.
pub record IsPacket (p : ChatPacket) : Type 0 where
  pub data_len : p.data_len < 2 ^ 32
  pub nickname : length p.nickname ≡ max_nick_len
  pub filename : length p.filename ≡ max_filename
  pub payload : length p.payload ≡ max_chunk_size

pub length-packet_bytes : (p : ChatPacket) → IsPacket p → length (packet_bytes p) ≡ sizeof_packet
length-packet_bytes p v = omega (
  arith,
  v.nickname,
  v.filename,
  v.payload,
  length-append p.nickname (p.filename ++ p.payload),
  length-append p.filename p.payload,
)

kind_of-code_of : (k : MsgType) → kind_of (code_of k) ≡ k
kind_of-code_of other = refl
kind_of-code_of join = refl
kind_of-code_of chat = refl
kind_of-code_of leave = refl
kind_of-code_of file_start = refl
kind_of-code_of file_data = refl
kind_of-code_of file_end = refl

code_of_lt : (k : MsgType) → code_of k < 2 ^ 32
code_of_lt other = omega arith
code_of_lt join = omega arith
code_of_lt chat = omega arith
code_of_lt leave = omega arith
code_of_lt file_start = omega arith
code_of_lt file_data = omega arith
code_of_lt file_end = omega arith

-- The bytes of a packet are read back, whatever stands behind them.
pub packet_of-packet_bytes :
    (p : ChatPacket) (rest : Bytes) → IsPacket p → packet_of (packet_bytes p ++ rest) ≡ p
unfolding packet_of
packet_of-packet_bytes p rest v =
    let tail : Bytes = p.filename ++ p.payload in
    let behind : (p.nickname ++ tail) ++ rest ≡ p.nickname ++ (tail ++ rest) =
      append_assoc p.nickname tail rest in
    let files : drop max_nick_len ((p.nickname ++ tail) ++ rest)
        ≡ p.filename ++ (p.payload ++ rest) =
      ap (drop max_nick_len) behind
      ∙ drop-array max_nick_len p.nickname (tail ++ rest) v.nickname
      ∙ append_assoc p.filename p.payload rest in
    let payloads : drop 288 ((p.nickname ++ tail) ++ rest) ≡ p.payload ++ rest =
      ap (drop 288) (
        behind
        ∙ ap (◌++◌ p.nickname) (append_assoc p.filename p.payload rest)
        ∙ sym (append_assoc p.nickname p.filename (p.payload ++ rest)))
      ∙ drop-array 288 (p.nickname ++ p.filename) (p.payload ++ rest)
          (omega (arith, length-append p.nickname p.filename, v.nickname, v.filename)) in
    let kinds = ap kind_of (long (code_of p.kind) (code_of_lt p.kind)) ∙ kind_of-code_of p.kind in
    λ i. record {
      kind = kinds i;
      data_len = long p.data_len v.data_len i;
      nickname =
          (ap (take max_nick_len) behind
              ∙ take-array max_nick_len p.nickname (tail ++ rest) v.nickname)
            i;
      filename =
          (ap (take max_filename) files
              ∙ take-array max_filename p.filename (p.payload ++ rest) v.filename)
            i;
      payload =
          (ap (take max_chunk_size) payloads ∙ take-array max_chunk_size p.payload rest v.payload)
            i;
    }

pub build_packet-IsPacket :
    (kind : MsgType) (nickname : Bytes) (text filename : Option Bytes) (data_len : ℕ)
    → data_len < 2 ^ 32
    → IsPacket (build_packet kind nickname text filename data_len)
unfolding build_packet
build_packet-IsPacket kind nickname text filename data_len h = record {
  data_len = h;
  nickname = length-copy_string 31 nickname;
  filename = length-copy_if 255 filename;
  payload = length-copy_if 1023 text;
}
  where
    length-copy_if : (n : ℕ) (s : Option Bytes) → length (copy_if (suc n) s) ≡ suc n
    length-copy_if n none = length-field (suc n) [] (omega arith)
    length-copy_if n (some s) = length-copy_string n s
