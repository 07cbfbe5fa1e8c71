-- ===== src/RawUdp/Packet.antt =====
-- module3/task09/utils.c. The machine is little-endian, as the code's reads of 16-bit words assume
-- nothing else; a packet is the list of its bytes. An address is the `uint32_t` of the code.
use eltex_practice.Base.{be16, le16, le32, ℕ, ◌+◌, ◌-◌, ◌*◌, ◌/◌, ◌%◌, [], ◌∷◌, Bytes, length}

-- The loop over the words, and the odd byte at the end.
unfoldable pub sum_words : Bytes → ℕ
sum_words [] = 0
sum_words (x ∷ []) = x
sum_words (x ∷ y ∷ r) = x + 256 * y + sum_words r

-- `(sum >> 16) + (sum & 0xffff)`, and `sum + (sum >> 16)`.
abbrev pub fold_once : ℕ → ℕ
fold_once sum = sum / 65536 + sum % 65536

abbrev pub fold_carry : ℕ → ℕ
fold_carry sum = sum + sum / 65536

-- `(unsigned short)~sum` is 65535 less the low 16 bits.
unfoldable pub calculate_checksum : Bytes → ℕ
calculate_checksum bytes = 65535 - fold_carry (fold_once (sum_words bytes)) % 65536

-- `sizeof(struct udphdr) + payload_len`, as `uint16_t`.
abbrev pub udp_length : Bytes → ℕ
udp_length payload = (8 + length payload) % 65536

-- `struct udphdr` and the payload behind it.
abbrev pub udp_segment : ℕ → ℕ → ℕ → Bytes → Bytes
udp_segment src_port dest_port sum payload =
    be16 src_port (be16 dest_port (be16 (udp_length payload) (le16 sum payload)))

-- `struct pseudo_header`, in front of the segment.
abbrev pub pseudogram : ℕ → ℕ → Bytes → Bytes → Bytes
pseudogram src_ip dest_ip payload segment =
    le32 src_ip (le32 dest_ip (0 ∷ 17 ∷ be16 (udp_length payload) segment))

-- `build_udp_packet`, where `malloc` succeeds.
unfoldable pub build_udp_packet : ℕ → ℕ → ℕ → ℕ → Bytes → Bytes
build_udp_packet src_ip dest_ip src_port dest_port payload =
    let zeroed = udp_segment src_port dest_port 0 payload in
    udp_segment src_port dest_port (calculate_checksum (pseudogram src_ip dest_ip payload zeroed))
      payload
