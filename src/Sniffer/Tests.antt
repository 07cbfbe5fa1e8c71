-- ===== src/Sniffer/Tests.antt =====
-- Runs of the sniffer (module3/task08).
use eltex_practice.Base.{
  ◌≡◌, refl, true, Bytes, List, [], ◌∷◌, ◌++◌, some, arith, codes, replicate, show, show_from,
}
use eltex_practice.UdpChat.Packet.{ChatPacket, build_packet, msg_chat}
use eltex_practice.UdpChat.Tests.{ann, hi, ann-Fits, hi-Fits}
use eltex_practice.Sniffer.Parse.{parse_udp_packet, filter_chat_task6}
use eltex_practice.Sniffer.Bounds.{Ensures, IsParsed, parse_udp_packet-Ensures}
use eltex_practice.Sniffer.Log.{
  time, macs, ips, ports, chat_pid, chat_nickname, chat_type, chat_text, format_mac,
  process_and_log_packet, print_payload, hex_dump,
}
use eltex_practice.Sniffer.Capture.{mac48, chat_frame, captured, process_and_log-build_packet}
use eltex_practice.Sniffer.Main.{
  Setup, Event, packet, recv_error, interrupted, sniffer_main, settle, nothing,
}
use eltex_practice.Sniffer.Cleanup.{sniffer_main-nothing}

-- An IP packet of 20 bytes with a header length of 60.
abbrev cut_off : Bytes
cut_off = replicate 12 2 ++ 8 ∷ 0 ∷ 79 ∷ replicate 8 0 ++ 17 ∷ replicate 10 1

parse_udp_packet-Ensures_example : Ensures (parse_udp_packet cut_off) (IsParsed cut_off)
parse_udp_packet-Ensures_example = parse_udp_packet-Ensures cut_off

abbrev dotted : Bytes → Bytes
dotted address = address

abbrev sent : ChatPacket
sent = build_packet 7 msg_chat ann (some hi)

process_and_log-build_packet_example :
    (parse_udp_packet (chat_frame 1 2 3 4 5000 6000 0 sent)
      ≡ some (some (captured 1 2 3 4 5000 6000 sent)))
    × (filter_chat_task6 (captured 1 2 3 4 5000 6000 sent) 6000 ≡ true)
    × (process_and_log_packet dotted (captured 1 2 3 4 5000 6000 sent) [] 1
        ≡ some (
            time []
            ∷ macs (format_mac (mac48 2 [])) (format_mac (mac48 1 []))
            ∷ ips (3 ∷ 0 ∷ 0 ∷ 0 ∷ []) (4 ∷ 0 ∷ 0 ∷ 0 ∷ [])
            ∷ ports 5000 6000
            ∷ chat_pid 7
            ∷ chat_nickname ann
            ∷ chat_type (codes "MSG_CHAT (Текст)")
            ∷ chat_text hi
            ∷ []))
process_and_log-build_packet_example =
    process_and_log-build_packet dotted 1 2 3 4 5000 6000 0 7 ann hi [] (omega arith) (omega arith)
      (omega arith) ann-Fits hi-Fits

print_payload-hi : print_payload hi ≡ codes "Payload (2 bytes):\n  ASCII: hi\n  HEX:   68 69 \n"
unfolding print_payload show show_from hex_dump
print_payload-hi = refl

abbrev setup : Setup
setup = record {
  has_device = true;
  socket_works = true;
  if_index = 2;
  bind_works = true;
  promisc_on_works = true;
  promisc_off_works = true;
  choice = some 1;
  port = some 6000;
  fopen_works = true;
}

abbrev arrived : List Event
arrived = packet cut_off [] ∷ recv_error ∷ []

sniffer_main-nothing_example :
    ((sniffer_main dotted setup (arrived ++ interrupted ∷ [])).0 ≡ true)
    × (settle (sniffer_main dotted setup (arrived ++ interrupted ∷ [])).1 nothing ≡ nothing)
sniffer_main-nothing_example = sniffer_main-nothing dotted setup arrived [] refl
