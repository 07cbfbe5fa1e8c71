-- ===== src/Sniffer/Bounds.antt =====
-- `parse_udp_packet` reads only inside the packet, whatever its bytes are: module3/task08.
use eltex_practice.Base.{
  ℕ, zero, suc, ◌+◌, ◌-◌, ◌*◌, ◌/◌, ◌%◌, ◌<◌, ◌≤◌, ◌≡◌, refl, Bool, true, false, ◌&&◌, [], ◌∷◌,
  Option, none, some, Bytes, arith, length, length-take, length-drop, get_elem?, drop, ltb, leb,
  ◌==◌, if◌then◌else◌, ◌>>=◌,
}
use eltex_practice.Sniffer.Parse.{
  ParsedPacket, Frame, read_be16, read_bytes, ethernet, vlan, loopback, link_layer, payload_at,
  transport_layer, network_layer, and_then, parse_udp_packet,
}

-- The computation reads no byte out of bounds, and what it gives has the property.
abbrev pub Ensures {ℓ} : {A : Type ℓ} → Option A → (A → Type 0) → Type 0
Ensures none P = ⊥
Ensures (some a) P = P a

Ensures-bind {ℓ κ} :
    {A : Type ℓ} {B : Type κ} (m : Option A) (f : A → Option B) (P : A → Type 0) (Q : B → Type 0)
    → Ensures m P
    → ((a : A) → P a → Ensures (f a) Q)
    → Ensures (m >>= f) Q
Ensures-bind none f P Q h k = h
Ensures-bind (some a) f P Q h k = k a h

-- A test at the front of a function.
Ensures-if {ℓ} :
    {A : Type ℓ} (b : Bool) (x y : Option A) (P : A → Type 0)
    → (b ≡ true → Ensures x P)
    → (b ≡ false → Ensures y P)
    → Ensures (if b then x else y) P
Ensures-if true x y P h k = h refl
Ensures-if false x y P h k = k refl

get_elem?-Ensures :
    (buffer : Bytes) (i : ℕ) → i < length buffer → Ensures (get_elem? buffer i) (λ c. Unit {0})
get_elem?-Ensures [] i h = absurd (omega arith)
get_elem?-Ensures (c ∷ s) zero h = tt
get_elem?-Ensures (c ∷ s) (suc i) h = get_elem?-Ensures s i (omega arith)

read_be16-Ensures :
    (buffer : Bytes) (i : ℕ) → i + 1 < length buffer → Ensures (read_be16 buffer i) (λ n. Unit {0})
unfolding read_be16
read_be16-Ensures buffer i h =
    Ensures-bind (get_elem? buffer i) _ (λ c. Unit {0}) (λ n. Unit {0})
      (get_elem?-Ensures buffer i (omega arith))
      λ high _.
        Ensures-bind (get_elem? buffer (i + 1)) _ (λ c. Unit {0}) (λ n. Unit {0})
          (get_elem?-Ensures buffer (i + 1) h) λ low _. tt

read_bytes-Ensures :
    (buffer : Bytes) (i n : ℕ)
    → i + n ≤ length buffer
    → Ensures (read_bytes buffer i n) (λ bytes. length bytes ≡ n)
unfolding read_bytes
read_bytes-Ensures buffer i n h =
    let t : leb (i + n) (length buffer) ≡ true = ground arith in
    rw (t) (omega (arith, length-take n (drop i buffer), length-drop i buffer))

-- What a frame has, if there is one.
abbrev HasMacs : Option Frame → Type 0
HasMacs none = Unit {0}
HasMacs (some frame) = (length frame.src_mac ≡ 6) × (length frame.dest_mac ≡ 6)

ethernet-Ensures :
    (buffer : Bytes) (ip_offset : ℕ)
    → 12 ≤ length buffer
    → Ensures (ethernet buffer ip_offset) HasMacs
unfolding ethernet
ethernet-Ensures buffer ip_offset h =
    Ensures-bind (read_bytes buffer 6 6) _ (λ b. length b ≡ 6) HasMacs
      (read_bytes-Ensures buffer 6 6 h)
      λ src s.
        Ensures-bind (read_bytes buffer 0 6) _ (λ b. length b ≡ 6) HasMacs
          (read_bytes-Ensures buffer 0 6 (omega arith)) λ dest d. (s, d)

vlan-Ensures : (buffer : Bytes) → Ensures (vlan buffer) HasMacs
unfolding vlan
vlan-Ensures buffer =
    Ensures-if (ltb (length buffer) 18) _ _ HasMacs (λ _. tt)
      λ e.
        Ensures-bind (read_be16 buffer 16) _ (λ n. Unit {0}) HasMacs
          (read_be16-Ensures buffer 16 (ground arith))
          λ inner _.
            Ensures-if (inner == 0x0800) _ _ HasMacs
              (λ _. ethernet-Ensures buffer 18 (ground arith)) (λ _. tt)

loopback-Ensures : (buffer : Bytes) → 0 < length buffer → Ensures (loopback buffer) HasMacs
unfolding loopback
loopback-Ensures buffer h =
    Ensures-bind (get_elem? buffer 0) _ (λ c. Unit {0}) HasMacs (get_elem?-Ensures buffer 0 h)
      λ first _. Ensures-if (first / 16 == 4) _ _ HasMacs (λ _. (refl, refl)) (λ _. tt)

link_layer-Ensures : (buffer : Bytes) → Ensures (link_layer buffer) HasMacs
unfolding link_layer
link_layer-Ensures buffer =
    Ensures-if (ltb (length buffer) 14) _ _ HasMacs (λ _. tt)
      λ e.
        Ensures-bind (read_be16 buffer 12) _ (λ n. Unit {0}) HasMacs
          (read_be16-Ensures buffer 12 (ground arith))
          λ proto _.
            Ensures-if (proto == 0x0800) _ _ HasMacs
              (λ _. ethernet-Ensures buffer 14 (ground arith))
              λ _.
                Ensures-if (proto == 0x8100) _ _ HasMacs (λ _. vlan-Ensures buffer)
                  (λ _. loopback-Ensures buffer (ground arith))

-- A payload is not empty, and the packet has it behind its 8 bytes of UDP header.
abbrev pub IsPayload : Bytes → Option Bytes → Type 0
IsPayload buffer none = Unit {0}
IsPayload buffer (some bytes) = (0 < length bytes) × (length bytes + 8 ≤ length buffer)

-- What is filled in, if the packet is taken.
abbrev pub IsParsed : Bytes → Option ParsedPacket → Type 0
IsParsed buffer none = Unit {0}
IsParsed buffer (some pkt) =
    (length pkt.src_mac ≡ 6)
    × (length pkt.dest_mac ≡ 6)
    × (length pkt.src_ip ≡ 4)
    × (length pkt.dest_ip ≡ 4)
    × IsPayload buffer pkt.payload

payload_at-Ensures :
    (buffer : Bytes) (offset udp_len : ℕ)
    → 8 ≤ offset
    → Ensures (payload_at buffer offset udp_len) (IsPayload buffer)
unfolding payload_at
payload_at-Ensures buffer offset udp_len h =
    Ensures-if (ltb 8 udp_len && leb (offset + (udp_len - 8)) (length buffer)) _ _
      (IsPayload buffer)
      (λ e.
        Ensures-bind (read_bytes buffer offset (udp_len - 8)) _ (λ b. length b ≡ udp_len - 8)
          (IsPayload buffer) (read_bytes-Ensures buffer offset (udp_len - 8) (ground arith))
          λ bytes l. ground arith)
      (λ _. tt)

transport_layer-Ensures :
    (buffer : Bytes) (frame : Frame) (udp_offset : ℕ)
    → HasMacs (some frame)
    → frame.ip_offset + 20 ≤ length buffer
    → Ensures (transport_layer buffer frame udp_offset) (IsParsed buffer)
unfolding transport_layer
transport_layer-Ensures buffer frame o m h =
    Ensures-if (ltb (length buffer) (o + 8)) _ _ (IsParsed buffer) (λ _. tt)
      λ e.
        let room : o + 8 ≤ length buffer = ground arith in
        Ensures-bind (read_bytes buffer (frame.ip_offset + 12) 4) _ (λ b. length b ≡ 4)
          (IsParsed buffer) (read_bytes-Ensures buffer (frame.ip_offset + 12) 4 (omega arith))
          λ src s.
            Ensures-bind (read_bytes buffer (frame.ip_offset + 16) 4) _ (λ b. length b ≡ 4)
              (IsParsed buffer) (read_bytes-Ensures buffer (frame.ip_offset + 16) 4 (omega arith))
              λ dest d.
                Ensures-bind (read_be16 buffer o) _ (λ n. Unit {0}) (IsParsed buffer)
                  (read_be16-Ensures buffer o (omega arith))
                  λ sport _.
                    Ensures-bind (read_be16 buffer (o + 2)) _ (λ n. Unit {0}) (IsParsed buffer)
                      (read_be16-Ensures buffer (o + 2) (omega arith))
                      λ dport _.
                        Ensures-bind (read_be16 buffer (o + 4)) _ (λ n. Unit {0}) (IsParsed buffer)
                          (read_be16-Ensures buffer (o + 4) (omega arith))
                          λ len _.
                            Ensures-bind (payload_at buffer (o + 8) len) _ (IsPayload buffer)
                              (IsParsed buffer)
                              (payload_at-Ensures buffer (o + 8) len (omega arith))
                              λ payload q. (m.0, m.1, s, d, q)

network_layer-Ensures :
    (buffer : Bytes) (frame : Option Frame)
    → HasMacs frame
    → Ensures (and_then buffer frame) (IsParsed buffer)
unfolding network_layer
network_layer-Ensures buffer none m = tt
network_layer-Ensures buffer (some frame) m =
    Ensures-if (ltb (length buffer) (frame.ip_offset + 20)) _ _ (IsParsed buffer) (λ _. tt)
      λ e.
        let room : frame.ip_offset + 20 ≤ length buffer = ground arith in
        Ensures-bind (get_elem? buffer (frame.ip_offset + 9)) _ (λ c. Unit {0}) (IsParsed buffer)
          (get_elem?-Ensures buffer (frame.ip_offset + 9) (omega arith))
          λ protocol _.
            Ensures-bind (get_elem? buffer frame.ip_offset) _ (λ c. Unit {0}) (IsParsed buffer)
              (get_elem?-Ensures buffer frame.ip_offset (omega arith))
              λ first _.
                Ensures-if (protocol == 17) _ _ (IsParsed buffer)
                  (λ _.
                    transport_layer-Ensures buffer frame (frame.ip_offset + first % 16 * 4) m room)
                  (λ _. tt)

-- Whatever the bytes of a packet are, no byte outside of it is read; and a packet that is taken has its
-- addresses whole, and either no payload or one that lies in the packet.
pub parse_udp_packet-Ensures :
    (buffer : Bytes) → Ensures (parse_udp_packet buffer) (IsParsed buffer)
unfolding parse_udp_packet
parse_udp_packet-Ensures buffer =
    Ensures-bind (link_layer buffer) (and_then buffer) HasMacs (IsParsed buffer)
      (link_layer-Ensures buffer) (network_layer-Ensures buffer)
