-- ===== src/RawUdp/Checksum.antt =====
-- The checksum against its specification: the ones' complement sum of the words is all ones.
use eltex_practice.Base.{
  ℕ, ◌+◌, ◌*◌, ◌%◌, ◌^◌, ◌≤◌, ◌<◌, ◌≡◌, ap, ◌∙◌, [], ◌∷◌, arith, Bytes, length, All,
}
use eltex_practice.RawUdp.Packet.{
  sum_words, calculate_checksum, udp_segment, pseudogram, build_udp_packet,
}

abbrev pub IsBytes : Bytes → Type 0
IsBytes bs = All (λ b. b < 256) bs

sum_words-le : (bs : Bytes) → IsBytes bs → sum_words bs ≤ 65535 * (length bs + 1)
unfolding sum_words
sum_words-le [] h = omega arith
sum_words-le (x ∷ []) h = omega arith
sum_words-le (x ∷ y ∷ r) h = omega (arith, sum_words-le r h.1.1)

-- Sum and checksum add up to a multiple of 65535, for any bytes that a packet can hold.
pub calculate_checksum-mod :
    (bs : Bytes) → sum_words bs < 2 ^ 32 → (sum_words bs + calculate_checksum bs) % 65535 ≡ 0
unfolding calculate_checksum
calculate_checksum-mod bs h = omega arith

pub calculate_checksum-zero :
    (bs : Bytes)
    → sum_words bs < 2 ^ 32
    → 0 < sum_words bs
    → sum_words bs % 65535 ≡ 0
    → calculate_checksum bs ≡ 0
unfolding calculate_checksum
calculate_checksum-zero bs h pos m = omega arith

pub calculate_checksum-lt : (bs : Bytes) → calculate_checksum bs < 65536
unfolding calculate_checksum
calculate_checksum-lt bs = omega arith

-- The field at its place adds its value to the sum.
sum-pseudogram :
    (src_ip dest_ip src_port dest_port sum : ℕ) (payload : Bytes)
    → sum < 65536
    → sum_words (pseudogram src_ip dest_ip payload (udp_segment src_port dest_port sum payload))
      ≡ sum_words (pseudogram src_ip dest_ip payload (udp_segment src_port dest_port 0 payload))
        + sum
unfolding sum_words
sum-pseudogram src_ip dest_ip src_port dest_port sum payload h = omega arith

sum-pseudogram-bounds :
    (src_ip dest_ip src_port dest_port : ℕ) (payload : Bytes)
    → IsBytes payload
    → length payload ≤ 60000
    → (sum_words (pseudogram src_ip dest_ip payload (udp_segment src_port dest_port 0 payload))
          + 65536
        < 2 ^ 32)
      × (0
          < sum_words
              (pseudogram src_ip dest_ip payload (udp_segment src_port dest_port 0 payload)))
unfolding sum_words
sum-pseudogram-bounds src_ip dest_ip src_port dest_port payload h k =
    (omega (arith, sum_words-le payload h), omega arith)

-- A receiver that sums the pseudo header and the packet as sent, checksum included, gets zero, for a
-- payload of at most 60000 bytes, each below 256.
pub calculate_checksum-build_udp_packet :
    (src_ip dest_ip src_port dest_port : ℕ) (payload : Bytes)
    → IsBytes payload
    → length payload ≤ 60000
    → calculate_checksum (
        pseudogram src_ip dest_ip payload
          (build_udp_packet src_ip dest_ip src_port dest_port payload))
      ≡ 0
unfolding build_udp_packet
calculate_checksum-build_udp_packet src_ip dest_ip src_port dest_port payload h k =
    let zeroed : Bytes =
      pseudogram src_ip dest_ip payload (udp_segment src_port dest_port 0 payload) in
    let c : ℕ = calculate_checksum zeroed in
    let small : c < 65536 = calculate_checksum-lt zeroed in
    let added = sum-pseudogram src_ip dest_ip src_port dest_port c payload small in
    let bounds = sum-pseudogram-bounds src_ip dest_ip src_port dest_port payload h k in
    calculate_checksum-zero
      (pseudogram src_ip dest_ip payload (udp_segment src_port dest_port c payload))
      (omega (arith, added, bounds)) (omega (arith, added, bounds))
      (ap (λ n. n % 65535) added ∙ calculate_checksum-mod zeroed (omega (arith, bounds)))
