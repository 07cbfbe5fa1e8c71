-- ===== src/Sniffer/Parse.antt =====
-- `parse_udp_packet` of module3/task08/packet_processor.c and the filters of filter.c. Every read names the
-- packet's bytes and is none outside of them, so that a result `none` is a read out of bounds.
use eltex_practice.Base.{
  ℕ, ◌+◌, ◌-◌, ◌*◌, ◌/◌, ◌%◌, Bool, ◌&&◌, ◌||◌, Option, none, some, Bytes, length, get_elem?, take,
  drop, replicate, ltb, leb, ◌==◌, if◌then◌else◌, ◌>>=◌,
}

-- The payload is the bytes that `payload` points to, `payload_len` of them; a null pointer gives none.
pub record ParsedPacket : Type 0 where
  pub src_mac : Bytes
  pub dest_mac : Bytes
  pub src_ip : Bytes
  pub dest_ip : Bytes
  pub src_port : ℕ
  pub dest_port : ℕ
  pub payload : Option Bytes

-- Reads of the buffer.
unfoldable pub read_be16 : Bytes → ℕ → Option ℕ
read_be16 buffer i =
    get_elem? buffer i >>= λ high. get_elem? buffer (i + 1) >>= λ low. some (high * 256 + low)

unfoldable pub read_bytes : Bytes → ℕ → ℕ → Option Bytes
read_bytes buffer i n = if leb (i + n) (length buffer) then some (take n (drop i buffer)) else none

-- The IP header's place, and the two addresses of the frame.
pub record Frame : Type 0 where
  pub ip_offset : ℕ
  pub src_mac : Bytes
  pub dest_mac : Bytes

abbrev pub eth_p_ip : ℕ
eth_p_ip = 0x0800

unfoldable pub ethernet : Bytes → ℕ → Option (Option Frame)
ethernet buffer ip_offset = read_bytes buffer 6 6 >>= λ src. read_bytes buffer 0 6 >>= λ dest.
    some (some (record { ip_offset = ip_offset; src_mac = src; dest_mac = dest }))

unfoldable pub vlan : Bytes → Option (Option Frame)
vlan buffer =
    if ltb (length buffer) 18
    then some none
    else (read_be16 buffer 16 >>= λ inner.
        if inner == eth_p_ip then ethernet buffer 18 else some none)

unfoldable pub loopback : Bytes → Option (Option Frame)
loopback buffer = get_elem? buffer 0 >>= λ first.
    if first / 16 == 4
    then some (some (record { ip_offset = 0; src_mac = replicate 6 0; dest_mac = replicate 6 0 }))
    else some none

-- L2: some none is `return false`.
unfoldable pub link_layer : Bytes → Option (Option Frame)
link_layer buffer =
    if ltb (length buffer) 14
    then some none
    else (read_be16 buffer 12 >>= λ eth_proto.
        if eth_proto == eth_p_ip
        then ethernet buffer 14
        else if eth_proto == 0x8100
        then vlan buffer
        else loopback buffer)

-- `udp->len` less the 8 bytes of the header, which is negative below 8: the pointer is null then, and where
-- the packet is shorter than it claims.
unfoldable pub payload_at : Bytes → ℕ → ℕ → Option (Option Bytes)
payload_at buffer payload_offset udp_len =
    if ltb 8 udp_len && leb (payload_offset + (udp_len - 8)) (length buffer)
    then (read_bytes buffer payload_offset (udp_len - 8) >>= λ bytes. some (some bytes))
    else some none

-- L4, behind the IP header.
unfoldable pub transport_layer : Bytes → Frame → ℕ → Option (Option ParsedPacket)
transport_layer buffer frame udp_offset =
    if ltb (length buffer) (udp_offset + 8)
    then some none
    else (read_bytes buffer (frame.ip_offset + 12) 4 >>= λ src_ip.
        read_bytes buffer (frame.ip_offset + 16) 4 >>= λ dest_ip.
        read_be16 buffer udp_offset >>= λ src_port.
        read_be16 buffer (udp_offset + 2) >>= λ dest_port.
        read_be16 buffer (udp_offset + 4) >>= λ udp_len.
        payload_at buffer (udp_offset + 8) udp_len >>= λ payload. some (
          some (record {
            src_mac = frame.src_mac;
            dest_mac = frame.dest_mac;
            src_ip = src_ip;
            dest_ip = dest_ip;
            src_port = src_port;
            dest_port = dest_port;
            payload = payload;
          })))

-- L3.
unfoldable pub network_layer : Bytes → Frame → Option (Option ParsedPacket)
network_layer buffer frame =
    if ltb (length buffer) (frame.ip_offset + 20)
    then some none
    else (get_elem? buffer (frame.ip_offset + 9) >>= λ protocol.
        get_elem? buffer frame.ip_offset >>= λ version_ihl.
        if protocol == 17
        then transport_layer buffer frame (frame.ip_offset + version_ihl % 16 * 4)
        else some none)

abbrev pub and_then : Bytes → Option Frame → Option (Option ParsedPacket)
and_then buffer none = some none
and_then buffer (some frame) = network_layer buffer frame

unfoldable pub parse_udp_packet : Bytes → Option (Option ParsedPacket)
parse_udp_packet buffer = link_layer buffer >>= λ frame. and_then buffer frame

unfoldable pub filter_chat_task6 : ParsedPacket → ℕ → Bool
filter_chat_task6 pkt chat_port = (pkt.src_port == chat_port) || (pkt.dest_port == chat_port)

unfoldable pub filter_dns : ParsedPacket → Bool
filter_dns pkt = (pkt.src_port == 53) || (pkt.dest_port == 53)
