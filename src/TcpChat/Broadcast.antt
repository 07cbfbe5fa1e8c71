-- ===== src/TcpChat/Broadcast.antt =====
-- A client's whole connection to the server: its packets through the stream to the server and on to every other
-- client, and a file that is uploaded: module3/task07.
use eltex_practice.Base.{
  ℕ, suc, ◌≡◌, refl, ap, ap₂, sym, subst, ◌∙◌, true, false, List, [], ◌∷◌, ◌++◌, map, none, some,
  Bytes, arith, length, ◌==◌, All, All-append, replicate, drop,
}
use eltex_practice.TcpChat.Packet.{file_start, file_data, file_end, ChatPacket, max_chunk_size}
use eltex_practice.TcpChat.Io.{Answer}
use eltex_practice.TcpChat.Wire.{IsPacket, build_packet-IsPacket}
use eltex_practice.TcpChat.Stream.{
  Incoming, packet, lost, waiting, Serves, Sends, packets, write_packets, read_packets,
  read_packets-write_packets,
}
use eltex_practice.TcpChat.Server.{
  Server, Event, ready, handle_client_data, handle_client_disconnect, handle_event, run_server_loop,
  packets_to, packets_to-handle_client_data, Distinct, has,
}
use eltex_practice.TcpChat.Server.Table.{packets_to-append}
use eltex_practice.TcpChat.Client.{
  get_base_filename, read_chunks, send_chunks, upload_file, Receiver, receive_all,
}
use eltex_practice.TcpChat.Transfer.{
  Pieces, read_chunks-Pieces, stored_name, received, receive-upload_file,
}

-- What the calls of `read_all` on one socket make the server do: after the end of the connection the socket is
-- no longer watched, and a call that waits is the last.
abbrev pub events_of : ℕ → List Incoming → List Event
events_of fd [] = []
events_of fd (packet p ∷ messages) = ready fd (some p) ∷ events_of fd messages
events_of fd (lost ∷ messages) = ready fd none ∷ []
events_of fd (waiting ∷ messages) = []

events_of-packets :
    (fd : ℕ) (ps : List ChatPacket)
    → events_of fd (map packet ps ++ lost ∷ [])
      ≡ map (λ p. ready fd (some p)) ps ++ ready fd none ∷ []
events_of-packets fd [] = refl
events_of-packets fd (p ∷ ps) = ap (λ es. ready fd (some p) ∷ es) (events_of-packets fd ps)

-- What the server has sent to a socket, and what is left of its state.
pub record Relayed (k fd : ℕ) (ps : List ChatPacket) (s : Server)
    (r : Server × List (ℕ × ChatPacket)) : Type 0 where
  pub left : r.0 ≡ handle_client_disconnect fd s
  pub arrived : packets_to k r.1 ≡ ps

run_server_loop-packets :
    (k fd : ℕ) (ps : List ChatPacket) (s : Server)
    → Distinct s.clients
    → has k s.clients ≡ true
    → (k == fd) ≡ false
    → Relayed k fd ps s (run_server_loop (map (λ p. ready fd (some p)) ps ++ ready fd none ∷ []) s)
unfolding run_server_loop handle_event handle_client_data
run_server_loop-packets k fd [] s d h other = record { left = refl; arrived = refl }
run_server_loop-packets k fd (p ∷ ps) s d h other =
    let later = run_server_loop-packets k fd ps s d h other in
    let one : packets_to k (handle_client_data fd (some p) s).1 ≡ p ∷ [] =
      packets_to-handle_client_data k fd p s d ∙ rw (h, other) refl in
    record {
      left = later.left;
      arrived =
          packets_to-append k (handle_client_data fd (some p) s).1 _ ∙ ap₂ ◌++◌ one later.arrived;
    }

-- A client sends packets and its connection ends. Every other client of the server gets exactly these packets, in
-- their order, and the server has forgotten the sender. Neither the pieces in which the system moves the
-- bytes nor what the server's memory holds matter; no call fails and enough bytes are moved, and the table has
-- no socket twice.
pub run_server_loop-write_packets :
    (k fd : ℕ) (sends : List (List Answer × ChatPacket)) (calls : List (List Answer))
    (stack : Bytes) (s : Server)
    → Sends sends
    → All Serves calls
    → length calls ≡ suc (length sends)
    → Distinct s.clients
    → has k s.clients ≡ true
    → (k == fd) ≡ false
    → (stream : Bytes) × (write_packets sends ≡ some stream)
      × Relayed k fd
          (packets sends)
          s
          (run_server_loop (events_of fd (read_packets stack calls stream)) s)
run_server_loop-write_packets k fd sends calls stack s h g e d there_is other =
    let (stream, written, read) = read_packets-write_packets sends calls stack h g e in
    (
      stream,
      written,
      rw (read, events_of-packets fd (packets sends))
          (run_server_loop-packets k fd (packets sends) s d there_is other),
    )

chunks-IsPacket :
    (nickname filename : Bytes) (cs : List Bytes) (old : Bytes)
    → Pieces cs
    → All IsPacket (send_chunks nickname filename cs old)
unfolding send_chunks
chunks-IsPacket nickname filename [] old h = tt
chunks-IsPacket nickname filename (c ∷ cs) old h = (
  build_packet-IsPacket file_data nickname (some (c ++ drop (length c) old)) (some filename)
      (length c) (omega (arith, h.0)),
  chunks-IsPacket nickname filename cs (replicate max_chunk_size 0) h.1,
)

-- Every packet of an upload fits the struct.
pub upload_file-IsPacket :
    (nickname path content old : Bytes) → All IsPacket (upload_file nickname path content old)
unfolding upload_file
upload_file-IsPacket nickname path content old =
    let filename : Bytes = get_base_filename path in
    (
      build_packet-IsPacket file_start nickname none (some filename) 0 (omega arith),
      All-append IsPacket (send_chunks nickname filename (read_chunks (length content) content) old)
          _
          (chunks-IsPacket nickname filename (read_chunks (length content) content) old
            (read_chunks-Pieces (length content) content))
          (build_packet-IsPacket file_end nickname none (some filename) 0 (omega arith), tt),
    )

pub packets-Sends :
    (sends : List (List Answer × ChatPacket)) (ps : List ChatPacket)
    → packets sends ≡ ps
    → All (λ s. Serves s.0) sends
    → All IsPacket ps
    → Sends sends
packets-Sends sends ps e h v = both sends h (subst (All IsPacket) (sym e) v)
  where
    both :
        (sends : List (List Answer × ChatPacket))
        → All (λ s. Serves s.0) sends
        → All IsPacket (packets sends)
        → Sends sends
    both [] h v = tt
    both (s ∷ sends) h v = ((h.0, v.0), both sends h.1 v.1)

-- A client uploads a file and its connection ends. Every other client of the server that handles what it is sent,
-- with every `fopen` succeeding, has then closed one file more, under the name made from the path, with the
-- bytes of the pieces as `strncpy` copies them, whatever it was receiving before. No call that moves
-- bytes fails and enough are moved, and the table has no socket twice.
pub run_server_loop-upload_file :
    (k fd : ℕ) (nickname path content old : Bytes) (sends : List (List Answer × ChatPacket))
    (calls : List (List Answer)) (stack : Bytes) (s : Server) (r : Receiver)
    → packets sends ≡ upload_file nickname path content old
    → All (λ t. Serves t.0) sends
    → All Serves calls
    → length calls ≡ suc (length sends)
    → Distinct s.clients
    → has k s.clients ≡ true
    → (k == fd) ≡ false
    → (stream : Bytes) × (write_packets sends ≡ some stream)
      × (receive_all
            (packets_to k (run_server_loop (events_of fd (read_packets stack calls stream)) s).1)
            r
          ≡ record { rx_file = none; saved = (stored_name path, received content) ∷ r.saved })
run_server_loop-upload_file k fd nickname path content old sends calls stack s r e h g n d there_is
      other =
    let v =
      packets-Sends sends (upload_file nickname path content old) e h
        (upload_file-IsPacket nickname path content old) in
    let (stream, written, relayed) =
      run_server_loop-write_packets k fd sends calls stack s v g n d there_is other in
    (
      stream,
      written,
      ap (λ ps. receive_all ps r) (relayed.arrived ∙ e)
          ∙ receive-upload_file nickname path content old r,
    )
