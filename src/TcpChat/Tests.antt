-- ===== src/TcpChat/Tests.antt =====
-- Runs of the chat, and its theorems at concrete inputs.
use eltex_practice.Base.{
  ◌≡◌, ◌≢◌, refl, true, List, [], ◌∷◌, none, some, arith, map, codes, str_eq, strip_prefix,
  cut_newline, Option, replicate, Bytes, ℕ, Fits, ◌<◌,
}
use eltex_practice.TcpChat.Packet.{ChatPacket, chat, join, leave, file_start, build_packet}
use eltex_practice.TcpChat.Io.{Answer, moves, eintr}
use eltex_practice.TcpChat.Wire.{packet_bytes, build_packet-IsPacket}
use eltex_practice.TcpChat.Stream.{
  Serves, packet, lost, write_packets, read_packets, read_packets-write_packets,
}
use eltex_practice.TcpChat.Session.{client_main, run_client_loop, process_user_input, run_command}
use eltex_practice.TcpChat.Conversation.{IsText, show_all, client_main-show_all}
use eltex_practice.TcpChat.Broadcast.{events_of, run_server_loop-upload_file}
use eltex_practice.TcpChat.Delivery.{
  said, entered, went, receiving, prompt, shown, relayed, shown-build_packet,
}
use eltex_practice.TcpChat.Server.{
  Server, Event, listening, ready, remove_client, run_server_loop, Inv, run_server_loop-Inv,
  packets_to, handle_event, handle_new_connection,
}
use eltex_practice.TcpChat.Server.Table.{table, run_server_loop-replay}
use eltex_practice.TcpChat.Client.{
  user_command, upload_file, send_chunks, read_chunks, Receiver, receive_all,
}
use eltex_practice.TcpChat.Transfer.{
  stored_name, received, upload_file-short, newest, upload_file-long,
}

-- A system that interrupts the first call, moves 1000 bytes in the next, and then one byte in each.
abbrev slow : List Answer
slow = eintr ∷ moves 999 ∷ replicate 1320 (moves 0)

slow-Serves : Serves slow
slow-Serves = record { moves = tt; enough = omega arith }

abbrev three : Server
three = record { clients = 5 ∷ 6 ∷ 7 ∷ []; watched = 7 ∷ 6 ∷ 5 ∷ []; open_fds = 7 ∷ 6 ∷ 5 ∷ [] }

-- The last socket takes the place of the removed one.
remove_first : remove_client 5 (5 ∷ 6 ∷ 7 ∷ []) ≡ 7 ∷ 6 ∷ []
unfolding remove_client
remove_first = refl

abbrev nobody : Server
nobody = record { clients = []; watched = []; open_fds = [] }

nobody-Inv : Inv nobody
nobody-Inv = record {
  few = omega arith;
  distinct = tt;
  distinct_watched = tt;
  distinct_open = tt;
  watches = λ k. refl;
  opens = λ k. refl;
}

abbrev visits : List Event
visits = listening (some 5) true ∷ listening (some 6) true ∷ ready 5 none ∷ []

run_server_loop-Inv_example : Inv (run_server_loop visits nobody).0
unfolding handle_event handle_new_connection
run_server_loop-Inv_example = run_server_loop-Inv visits (refl, (refl, (refl, tt))) nobody-Inv

abbrev hello : ChatPacket
hello = build_packet chat (codes "ann") (some (codes "hi")) none 0

-- Client 5 writes, then its connection ends, and client 7 writes.
abbrev talks : List Event
talks = ready 5 (some hello) ∷ ready 5 none ∷ ready 7 (some hello) ∷ []

run_server_loop-replay_example :
    (table (run_server_loop talks three).0.clients ≡ table (6 ∷ 7 ∷ []))
    × (packets_to 6 (run_server_loop talks three).1 ≡ hello ∷ hello ∷ [])
run_server_loop-replay_example = run_server_loop-replay 6 talks three

abbrev ann : Bytes
ann = codes "ann"

read_packets-write_packets_example :
    (stream : Bytes) × (write_packets ((slow, hello) ∷ []) ≡ some stream)
    × (read_packets [] (slow ∷ slow ∷ []) stream ≡ packet hello ∷ lost ∷ [])
read_packets-write_packets_example =
    read_packets-write_packets ((slow, hello) ∷ []) (slow ∷ slow ∷ []) []
      ((slow-Serves, build_packet-IsPacket chat ann (some (codes "hi")) none 0 (omega arith)), tt)
      (slow-Serves, (slow-Serves, tt)) refl

ann-Fits : Fits 32 ann
ann-Fits = record { whole = (refl, (refl, (refl, tt))); short = omega arith }

hi-Fits : (n : ℕ) → 2 < n → Fits n (codes "hi")
hi-Fits n h = record { whole = (refl, (refl, tt)); short = omega (arith, h) }

shown-build_packet_example :
    (shown slow slow [] [] 5 three 7
        (packet_bytes (build_packet chat ann (some (codes "hi")) none 0))
      ≡ said ann (codes "hi") ∷ prompt ∷ [])
    × (shown slow slow [] [] 5 three 7 (packet_bytes (build_packet join ann none none 0))
        ≡ entered ann ∷ prompt ∷ [])
    × (shown slow slow [] [] 5 three 7 (packet_bytes (build_packet leave ann none none 0))
        ≡ went ann ∷ prompt ∷ [])
    × (shown slow slow [] [] 5 three 7
          (packet_bytes (build_packet file_start ann none (some (codes "hi")) 0))
        ≡ receiving (codes "hi") ann ∷ prompt ∷ [])
    × (relayed slow slow [] [] 5 three 5
          (packet_bytes (build_packet chat ann (some (codes "hi")) none 0))
        ≡ [])
    × (relayed slow slow [] [] 5 three 5 (packet_bytes (build_packet join ann none none 0)) ≡ [])
    × (relayed slow slow [] [] 5 three 5 (packet_bytes (build_packet leave ann none none 0)) ≡ [])
    × (relayed slow slow [] [] 5 three 5
          (packet_bytes (build_packet file_start ann none (some (codes "hi")) 0))
        ≡ [])
shown-build_packet_example =
    shown-build_packet slow slow [] [] 5 three (refl, (refl, (refl, tt))) slow-Serves slow-Serves 7
      ann (codes "hi") (codes "hi") ann-Fits (hi-Fits 1024 (omega arith))
      (hi-Fits 256 (omega arith)) refl refl

abbrev idle : Receiver
idle = record { rx_file = none; saved = [] }

abbrev sends : List (List Answer × ChatPacket)
sends = map (λ p. (slow, p)) (upload_file ann (codes "a/b.txt") (codes "xyz") [])

run_server_loop-upload_file_example :
    (stream : Bytes) × (write_packets sends ≡ some stream)
    × (receive_all
          (packets_to 7
            (run_server_loop (events_of 5 (read_packets [] (replicate 4 slow) stream)) three).1)
          idle
        ≡ record {
          rx_file = none;
          saved = (stored_name (codes "a/b.txt"), received (codes "xyz")) ∷ [];
        })
unfolding upload_file send_chunks read_chunks
run_server_loop-upload_file_example =
    run_server_loop-upload_file 7 5 ann (codes "a/b.txt") (codes "xyz") [] sends (replicate 4 slow)
      [] three idle refl (slow-Serves, (slow-Serves, (slow-Serves, tt)))
      (slow-Serves, (slow-Serves, (slow-Serves, (slow-Serves, tt)))) refl (refl, (refl, (refl, tt)))
      refl refl

upload_file-short_example :
    receive_all (upload_file ann (codes "a/b.txt") (codes "xyz") (codes "old")) idle
    ≡ record { rx_file = none; saved = (stored_name (codes "a/b.txt"), codes "xyz") ∷ [] }
upload_file-short_example =
    upload_file-short ann (codes "a/b.txt") (codes "xyz") (codes "old") idle (omega arith)
      (refl, (refl, (refl, tt)))

upload_file-long_example :
    newest (receive_all (upload_file ann (codes "a/b.txt") (replicate 1024 65) []) idle)
    ≢ replicate 1024 65
upload_file-long_example =
    upload_file-long ann (codes "a/b.txt") (replicate 1024 65) [] idle 65 refl (omega arith)

abbrev closed : Bytes → Option Bytes
closed path = none

hi-IsText : IsText (codes "hi")
unfolding user_command str_eq strip_prefix
hi-IsText = record { fits = hi-Fits 1024 (omega arith); says = refl }

abbrev session : List ChatPacket
session =
    build_packet join ann none none 0
    ∷ build_packet chat ann (some (codes "hi")) none 0
    ∷ build_packet leave ann none none 0
    ∷ []

client_main-show_all_example :
    (stream : Bytes) × (write_packets (map (λ p. (slow, p)) session) ≡ some stream)
    × (show_all (
          packets_to 7
            (run_server_loop (events_of 5 (read_packets [] (replicate 4 slow) stream)) three).1)
        ≡ entered ann ∷ prompt ∷ said ann (codes "hi") ∷ prompt ∷ went ann ∷ prompt ∷ [])
unfolding client_main run_client_loop process_user_input user_command run_command str_eq
    strip_prefix cut_newline
client_main-show_all_example =
    client_main-show_all ann closed [] (codes "hi" ∷ []) [] idle 7 5 (map (λ p. (slow, p)) session)
      (replicate 4 slow) [] three ann-Fits (hi-IsText, tt) refl
      (slow-Serves, (slow-Serves, (slow-Serves, tt)))
      (slow-Serves, (slow-Serves, (slow-Serves, (slow-Serves, tt)))) refl (refl, (refl, (refl, tt)))
      refl refl
