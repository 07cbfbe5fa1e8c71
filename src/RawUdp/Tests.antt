-- ===== src/RawUdp/Tests.antt =====
-- Runs of the raw UDP echo service (module3/task09) on concrete packets.
use eltex_practice.Base.{
  show, ◌+◌, ◌^◌, str_eq, ◌≡◌, refl, Bytes, List, [], ◌∷◌, ◌++◌, none, some, arith, ℕ, ◌<◌, map,
  Option,
}
use eltex_practice.RawUdp.Packet.{pseudogram, build_udp_packet, calculate_checksum}
use eltex_practice.RawUdp.Checksum.{calculate_checksum-build_udp_packet}
use eltex_practice.RawUdp.Clients.{ClientRecord, count_of}
use eltex_practice.RawUdp.Loop.{server_loop}
use eltex_practice.RawUdp.Room.{Clients}
use eltex_practice.RawUdp.Counting.{
  Datagram, IsDatagram, Counts, Holds, received, counted_all, server_loop-answers,
}
use eltex_practice.RawUdp.Server.{
  ignored, reply, process_incoming_packet, wait_for_server_reply, ip_header, response,
}
use eltex_practice.RawUdp.Echo.{frame, process-wait_for_server_reply}

abbrev text : Bytes
text = 104 ∷ 105 ∷ []

abbrev two_clients : List ClientRecord
two_clients =
    record { ip = 16777343; port = 5000; message_count = 3 }
    ∷ record { ip = 16777343; port = 5001; message_count = 7 }
    ∷ []

calculate_checksum-build_udp_packet_example :
    calculate_checksum
      (pseudogram 16777343 33554559 text (build_udp_packet 16777343 33554559 5000 8080 text))
    ≡ 0
calculate_checksum-build_udp_packet_example =
    calculate_checksum-build_udp_packet 16777343 33554559 5000 8080 text
      (omega arith, (omega arith, tt)) (omega arith)

-- Client 5001 says `hi` twice, with an error of `recvfrom` between, and something else goes to another port.
abbrev hello : ℕ → Datagram
hello port = record {
  saddr = 16777343;
  daddr = 33554559;
  src_port = 5001;
  dest_port = port;
  text = text;
  behind = [];
}

hello-IsDatagram : (port : ℕ) → port < 65536 → IsDatagram (hello port)
hello-IsDatagram port h = record {
  saddr = omega arith;
  daddr = omega arith;
  src_port = omega arith;
  dest_port = h;
  text = (refl, (refl, tt));
  short = omega arith;
}

abbrev calls : List (Option Datagram)
calls = some (hello 8080) ∷ none ∷ some (hello 9) ∷ some (hello 8080) ∷ []

abbrev counts : Counts
counts p q = count_of p q two_clients

abbrev clients : Clients
clients = (16777343, 5000) ∷ (16777343, 5001) ∷ []

counts-small : (p q : ℕ) → counts p q + 4 < 2 ^ 31
counts-small p q = ground arith

server_loop-answers_example :
    ((server_loop 8080 (map received calls) two_clients).0
      ≡ reply (build_udp_packet 33554559 16777343 8080 5001 (response text 8))
        ∷ ignored
        ∷ reply (build_udp_packet 33554559 16777343 8080 5001 (response text 9))
        ∷ [])
    × Holds clients 0
        (server_loop 8080 (map received calls) two_clients).1
        (counted_all 8080 calls counts)
unfolding str_eq
server_loop-answers_example =
    server_loop-answers 8080 clients calls two_clients counts (omega arith)
      (
        hello-IsDatagram 8080 (omega arith),
        refl,
        (hello-IsDatagram 9 (omega arith), refl, (hello-IsDatagram 8080 (omega arith), refl, tt)),
      )
      (record { fits = omega arith; same_as = λ p q. refl; small = counts-small })

process-wait_for_server_reply_example :
    (packet : Bytes) × ((process_incoming_packet 8080
        (frame 16777343 33554559 5001 8080 text [])
        two_clients).0
      ≡ reply packet)
    × (wait_for_server_reply 5 5001 8080
          (none ∷ some (ip_header 33554559 16777343 (packet ++ 0 ∷ [])) ∷ [])
        ≡ some (some (text ++ 32 ∷ show 8)))
unfolding str_eq
process-wait_for_server_reply_example =
    process-wait_for_server_reply 16777343 33554559 5001 8080 1 text [] (0 ∷ []) [] two_clients
      (omega arith) (omega arith) (omega arith) (omega arith) (refl, (refl, tt)) (omega arith) refl
      (omega arith) (omega arith) (omega arith)
