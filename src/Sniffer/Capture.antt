-- ===== src/Sniffer/Capture.antt =====
-- A packet of the group chat (module3/task06) as the sniffer of module3/task08 sees it on an Ethernet.
use eltex_practice.Base.{
  append-nil, length-copy_string, replicate, le32, copy_string-eq-field, ℕ, suc, ◌+◌, ◌-◌, ◌/◌, ◌%◌,
  ◌^◌, ◌<◌, ◌≤◌, ◌≡◌, refl, ap, sym, ◌∙◌, true, false, [], ◌∷◌, ◌++◌, some, Bytes, arith, length,
  get_elem?, take, drop, ltb, leb, ◌==◌, be16, word, long, codes, Free, copy_string, append_assoc,
  take_of_le, Fits, drop-array,
}
use eltex_practice.RawUdp.Server.{ip_header}
use eltex_practice.UdpChat.Packet.{
  ChatPacket, packet_bytes, sizeof_packet, build_packet, msg_chat, max_nick_len, max_text_len,
}
use eltex_practice.UdpChat.Delivery.{IsPacket, build_packet-IsPacket, length-packet_bytes}
use eltex_practice.Sniffer.Parse.{
  ParsedPacket, Frame, read_be16, read_bytes, ethernet, link_layer, payload_at, transport_layer,
  network_layer, parse_udp_packet, filter_chat_task6,
}
use eltex_practice.Sniffer.Log.{
  time, macs, ips, ports, chat_pid, chat_nickname, chat_type, chat_text, format_mac, string_at,
  log_text, log_chat, log_payload, process_and_log_packet,
}

read_bytes-at :
    (buffer : Bytes) (i n : ℕ)
    → i + n ≤ length buffer
    → read_bytes buffer i n ≡ some (take n (drop i buffer))
unfolding read_bytes
read_bytes-at buffer i n h =
    let t : leb (i + n) (length buffer) ≡ true = ground arith in rw (t) refl

link_layer-ethernet :
    (buffer : Bytes)
    → 14 ≤ length buffer
    → read_be16 buffer 12 ≡ some 0x0800
    → link_layer buffer
      ≡ some (
          some
            (record { ip_offset = 14; src_mac = take 6 (drop 6 buffer); dest_mac = take 6 buffer }))
unfolding link_layer ethernet
link_layer-ethernet buffer h e =
    let t : ltb (length buffer) 14 ≡ false = ground arith in
    rw (t, e)
      (rw (read_bytes-at buffer 6 6 (omega arith), read_bytes-at buffer 0 6 (omega arith)) refl)

network_layer-udp :
    (buffer : Bytes) (frame : Frame)
    → frame.ip_offset + 20 ≤ length buffer
    → get_elem? buffer (frame.ip_offset + 9) ≡ some 17
    → get_elem? buffer frame.ip_offset ≡ some 69
    → network_layer buffer frame ≡ transport_layer buffer frame (frame.ip_offset + 20)
unfolding network_layer
network_layer-udp buffer frame h p v =
    let t : ltb (length buffer) (frame.ip_offset + 20) ≡ false = ground arith in
    rw (t) (rw (p) (rw (v) refl))

transport_layer-payload :
    (buffer : Bytes) (frame : Frame) (o sport dport len : ℕ)
    → frame.ip_offset + 20 ≤ o
    → 8 < len
    → o + len ≤ length buffer
    → read_be16 buffer o ≡ some sport
    → read_be16 buffer (o + 2) ≡ some dport
    → read_be16 buffer (o + 4) ≡ some len
    → transport_layer buffer frame o
      ≡ some (
          some (record {
            src_mac = frame.src_mac;
            dest_mac = frame.dest_mac;
            src_ip = take 4 (drop (frame.ip_offset + 12) buffer);
            dest_ip = take 4 (drop (frame.ip_offset + 16) buffer);
            src_port = sport;
            dest_port = dport;
            payload = some (take (len - 8) (drop (o + 8) buffer));
          }))
unfolding transport_layer payload_at
transport_layer-payload buffer frame o sport dport len h l r s d n =
    let t : ltb (length buffer) (o + 8) ≡ false = ground arith in
    let u : ltb 8 len ≡ true = ground arith in
    let w : leb (o + 8 + (len - 8)) (length buffer) ≡ true = ground arith in
    rw (t) (
      rw (read_bytes-at buffer (frame.ip_offset + 12) 4 (omega arith)) (
        rw (read_bytes-at buffer (frame.ip_offset + 16) 4 (omega arith)) (
          rw (s, d, n)
            (rw (u, w) (rw (read_bytes-at buffer (o + 8) (len - 8) (omega arith)) refl)))))

-- A string in front of a terminator.
string_at-append : (s rest : Bytes) → Free 0 s → string_at (s ++ 0 ∷ rest) ≡ some s
unfolding string_at
string_at-append [] rest h = refl
string_at-append (c ∷ s) rest h = rw (h.0, string_at-append s rest h.1) refl

string_at-copy_string :
    (n : ℕ) (s rest : Bytes) → Fits n s → string_at (copy_string n s ++ rest) ≡ some s
string_at-copy_string n s rest f =
    let short : length s ≤ n - 1 = omega (arith, f.short) in
    let room : n - length s ≡ suc (n - length s - 1) = omega (arith, f.short) in
    ap (λ t. string_at (t ++ rest)) (copy_string-eq-field n s f.whole short)
    ∙ ap string_at (append_assoc s (replicate (n - length s) 0) rest)
    ∙ ap (λ m. string_at (s ++ (replicate m 0 ++ rest))) room
    ∙ string_at-append s (replicate (n - length s - 1) 0 ++ rest) f.whole

-- A 48-bit address in front of what follows, and an Ethernet frame with a packet of the group chat: 560
-- bytes of UDP in an IP packet with a header of 20 bytes.
abbrev pub mac48 : ℕ → Bytes → Bytes
mac48 n rest =
    (n / 2 ^ 40 % 256)
    ∷ (n / 2 ^ 32 % 256)
    ∷ (n / 2 ^ 24 % 256)
    ∷ (n / 2 ^ 16 % 256)
    ∷ (n / 2 ^ 8 % 256)
    ∷ (n % 256)
    ∷ rest

abbrev pub chat_frame : ℕ → ℕ → ℕ → ℕ → ℕ → ℕ → ℕ → ChatPacket → Bytes
chat_frame dest src saddr daddr sport dport sum p = mac48 dest (
    mac48 src (
      8
      ∷ 0
      ∷ ip_header saddr daddr (be16 sport (be16 dport (be16 560 (be16 sum (packet_bytes p)))))))

-- What the sniffer takes from it.
abbrev pub captured : ℕ → ℕ → ℕ → ℕ → ℕ → ℕ → ChatPacket → ParsedPacket
captured dest src saddr daddr sport dport p = record {
  src_mac = mac48 src [];
  dest_mac = mac48 dest [];
  src_ip = le32 saddr [];
  dest_ip = le32 daddr [];
  src_port = sport;
  dest_port = dport;
  payload = some (packet_bytes p);
}

parse-chat_frame :
    (dest src saddr daddr sport dport sum : ℕ) (p : ChatPacket)
    → sport < 65536
    → dport < 65536
    → IsPacket p
    → parse_udp_packet (chat_frame dest src saddr daddr sport dport sum p)
      ≡ some (some (captured dest src saddr daddr sport dport p))
unfolding parse_udp_packet read_be16
parse-chat_frame dest src saddr daddr sport dport sum p hs hd v =
    let buffer = chat_frame dest src saddr daddr sport dport sum p in
    let size : length buffer ≡ 594 = omega (arith, length-packet_bytes p v) in
    let frame : Frame = record {
      ip_offset = 14;
      src_mac = mac48 src [];
      dest_mac = mac48 dest [];
    } in
    let l2 : link_layer buffer ≡ some (some frame) =
      link_layer-ethernet buffer (omega arith) refl in
    let l3 : network_layer buffer frame ≡ transport_layer buffer frame 34 =
      network_layer-udp buffer frame (omega arith) refl refl in
    let l4 =
      transport_layer-payload buffer frame 34 sport dport 560 (omega arith) (omega arith)
        (omega arith) (ap some (word sport hs)) (ap some (word dport hd)) refl in
    let whole : take 552 (packet_bytes p) ≡ packet_bytes p =
      take_of_le 552 (packet_bytes p) (omega (arith, length-packet_bytes p v)) in
    rw (l2) (
      l3
      ∙ l4
      ∙ ap
          (λ b. some (
            some (record {
              src_mac = mac48 src [];
              dest_mac = mac48 dest [];
              src_ip = le32 saddr [];
              dest_ip = le32 daddr [];
              src_port = sport;
              dest_port = dport;
              payload = some b;
            })))
          whole)

string_at-last : (n : ℕ) (s : Bytes) → Fits n s → string_at (copy_string n s) ≡ some s
string_at-last n s f =
    ap string_at (sym (append-nil (copy_string n s))) ∙ string_at-copy_string n s [] f

log_chat-packet_bytes :
    (pid : ℕ) (nickname text : Bytes)
    → pid < 2 ^ 32
    → Fits max_nick_len nickname
    → Fits max_text_len text
    → log_chat (packet_bytes (build_packet pid msg_chat nickname (some text)))
      ≡ some (
          chat_pid pid
          ∷ chat_nickname nickname
          ∷ chat_type (codes "MSG_CHAT (Текст)")
          ∷ chat_text text
          ∷ [])
unfolding log_chat log_text build_packet
log_chat-packet_bytes pid nickname text h n t =
    let nick = string_at-copy_string max_nick_len nickname (copy_string max_text_len text) n in
    let behind : drop 32 (copy_string max_nick_len nickname ++ copy_string max_text_len text)
        ≡ copy_string max_text_len text =
      drop-array 32 (copy_string max_nick_len nickname) (copy_string max_text_len text)
        (length-copy_string 31 nickname) in
    rw (nick) (
      rw (behind) (
        rw (string_at-last max_text_len text t) (
          ap
            (λ q. some (
              chat_pid q
              ∷ chat_nickname nickname
              ∷ chat_type (codes "MSG_CHAT (Текст)")
              ∷ chat_text text
              ∷ []))
            (long pid h))))

-- A message of the group chat on an Ethernet is captured whole: its frame is taken, it passes the filter for
-- the port that it goes to, and the log shows the sender's pid and nickname and the text, as they were sent.
-- Ports and pid are in range; nickname and text fit their arrays.
pub process_and_log-build_packet :
    (inet_ntoa : Bytes → Bytes) (dest src saddr daddr sport dport sum pid : ℕ)
    (nickname text elapsed : Bytes)
    → sport < 65536
    → dport < 65536
    → pid < 2 ^ 32
    → Fits max_nick_len nickname
    → Fits max_text_len text
    → let p = build_packet pid msg_chat nickname (some text) in
      let pkt = captured dest src saddr daddr sport dport p in
      (parse_udp_packet (chat_frame dest src saddr daddr sport dport sum p) ≡ some (some pkt))
      × (filter_chat_task6 pkt dport ≡ true)
      × (process_and_log_packet inet_ntoa pkt elapsed 1
          ≡ some (
              time elapsed
              ∷ macs (format_mac (mac48 src [])) (format_mac (mac48 dest []))
              ∷ ips (inet_ntoa (le32 saddr [])) (inet_ntoa (le32 daddr []))
              ∷ ports sport dport
              ∷ chat_pid pid
              ∷ chat_nickname nickname
              ∷ chat_type (codes "MSG_CHAT (Текст)")
              ∷ chat_text text
              ∷ []))
unfolding process_and_log_packet log_payload filter_chat_task6
process_and_log-build_packet ntoa dest src saddr daddr sport dport sum pid nickname text elapsed hs
      hd h n t =
    let p = build_packet pid msg_chat nickname (some text) in
    let v = build_packet-IsPacket pid msg_chat nickname (some text) h (omega arith) in
    let whole : (length (packet_bytes p) == sizeof_packet) ≡ true =
      ground (arith, length-packet_bytes p v) in
    (
      parse-chat_frame dest src saddr daddr sport dport sum p hs hd v,
      ground arith,
      rw (whole) (rw (log_chat-packet_bytes pid nickname text h n t) refl),
    )
