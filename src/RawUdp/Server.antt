-- ===== src/RawUdp/Server.antt =====
-- module3/task09/server_logic.c and the reception of client_logic.c. A frame is the receive buffer:
-- the IP header that a raw socket hands over, the UDP packet, and whatever the buffer held behind it.
use eltex_practice.Base.{
  le32, byte, be16_at, le32_at, until_nul, ℕ, zero, suc, ◌+◌, ◌-◌, ◌*◌, ◌%◌, ◌^◌, ◌<◌, ◌≡◌, refl,
  arith, true, Bool, ◌&&◌, ◌||◌, List, [], ◌∷◌, ◌++◌, Option, none, some, length, take, drop, ltb,
  ◌==◌, if◌then◌else◌, Bytes, codes, str_eq, show,
}
use eltex_practice.RawUdp.Packet.{build_udp_packet}
use eltex_practice.RawUdp.Clients.{ClientRecord, count_message, reset_client}

abbrev pub buffer_size : ℕ
buffer_size = 65536

abbrev pub shutdown_msg : Bytes
shutdown_msg = codes "CLIENT_SHUTDOWN_SIGNAL"

-- The fields of `struct iphdr` and `struct udphdr` at their places in the buffer.
abbrev pub ip_hdr_len : Bytes → ℕ
ip_hdr_len buffer = byte 0 buffer % 16 * 4

abbrev pub is_udp : Bytes → Bool
is_udp buffer = byte 9 buffer == 17

abbrev pub src_port_of : Bytes → ℕ
src_port_of buffer = be16_at (ip_hdr_len buffer) buffer

abbrev pub dest_port_of : Bytes → ℕ
dest_port_of buffer = be16_at (ip_hdr_len buffer + 2) buffer

abbrev pub udp_len_of : Bytes → ℕ
udp_len_of buffer = be16_at (ip_hdr_len buffer + 4) buffer

-- `memcpy(payload_str, payload, payload_len)`. It is none where the length is negative, which `memcpy`
-- takes for a huge one, or where it reads behind the buffer.
unfoldable pub payload_str : Bytes → Option Bytes
payload_str buffer =
    if ltb (udp_len_of buffer) 8 || ltb buffer_size (ip_hdr_len buffer + udp_len_of buffer)
    then none
    else some (until_nul (take (udp_len_of buffer - 8) (drop (ip_hdr_len buffer + 8) buffer)))

-- What the server does about a frame. `fault` is a read or a write outside of a buffer.
pub data Reaction : Type 0 where
  fault : Reaction
  ignored : Reaction
  reset : Reaction
  reply : Bytes → Reaction

-- `%d` of the 32 bits of an `int`.
unfoldable pub show_int : ℕ → Bytes
show_int n = if ltb n (2 ^ 31) then show n else 45 ∷ show (2 ^ 32 - n)

pub show_int-small : (n : ℕ) → n < 2 ^ 31 → show_int n ≡ show n
unfolding show_int
show_int-small n h = let t : ltb n (2 ^ 31) ≡ true = ground arith in rw (t) refl

abbrev pub response : Bytes → ℕ → Bytes
response text count = text ++ 32 ∷ show_int count

unfoldable pub send_raw_reply : ℕ → ℕ → ℕ → ℕ → Bytes → ℕ → Reaction
send_raw_reply src_ip dest_ip src_port dest_port text count =
    if ltb buffer_size (8 + length (response text count))
    then fault
    else reply (build_udp_packet src_ip dest_ip src_port dest_port (response text count))

-- From the test for the shutdown notice to the end of `process_incoming_packet`.
unfoldable pub respond : ℕ → ℕ → ℕ → ℕ → Bytes → List ClientRecord → Reaction × List ClientRecord
respond server_port saddr daddr src_port text db =
    if str_eq text shutdown_msg
    then (reset, reset_client saddr src_port db)
    else let (count, db') = count_message saddr src_port db in
      (send_raw_reply daddr saddr server_port src_port text count, db')

unfoldable pub process_incoming_packet :
    ℕ → Bytes → List ClientRecord → Reaction × List ClientRecord
process_incoming_packet server_port buffer db =
    if is_udp buffer && (dest_port_of buffer == server_port)
    then elim (payload_str buffer) [
      | none ↦ (fault, db)
      | some text ↦
          respond server_port (le32_at 12 buffer) (le32_at 16 buffer) (src_port_of buffer) text db
    ]
    else (ignored, db)

-- `wait_for_server_reply`: `frames` are the results of the calls of `recvfrom`, none for a timeout;
-- the result is none where the text is not printed, and the length of the text is unchecked here too.
unfoldable pub wait_for_server_reply : ℕ → ℕ → ℕ → List (Option Bytes) → Option (Option Bytes)
wait_for_server_reply zero client_port server_port frames = none
wait_for_server_reply (suc retries) client_port server_port [] = none
wait_for_server_reply (suc retries) client_port server_port (none ∷ frames) =
    wait_for_server_reply retries client_port server_port frames
wait_for_server_reply (suc retries) client_port server_port (some buffer ∷ frames) =
    if is_udp buffer
      && ((dest_port_of buffer == client_port) && (src_port_of buffer == server_port))
    then some (payload_str buffer)
    else wait_for_server_reply retries client_port server_port frames

-- An IPv4 header of 20 bytes for UDP, zero in the fields that the programs do not read.
abbrev pub ip_header : ℕ → ℕ → Bytes → Bytes
ip_header saddr daddr rest =
    69 ∷ 0 ∷ 0 ∷ 0 ∷ 0 ∷ 0 ∷ 0 ∷ 0 ∷ 64 ∷ 17 ∷ 0 ∷ 0 ∷ le32 saddr (le32 daddr rest)
