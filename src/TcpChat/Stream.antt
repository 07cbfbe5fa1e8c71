-- ===== src/TcpChat/Stream.antt =====
-- A stream of packets between `write_all` and `read_all`: their calls in client.c and server.c of module3/task07.
use eltex_practice.Base.{
  ℕ, suc, ◌≤◌, ◌<◌, ◌≡◌, refl, ap, ◌∙◌, List, [], ◌∷◌, ◌++◌, map, Option, none, some, Bytes, arith,
  length, drop, take-array, drop-array, All, take_of_le,
}
use eltex_practice.TcpChat.Packet.{ChatPacket}
use eltex_practice.TcpChat.Io.{
  Answer, NoFailure, moving, Outcome, done, error, waits, read_all, write_all, read_all-done,
  write_all-done,
}
use eltex_practice.TcpChat.Wire.{
  sizeof_packet, packet_bytes, packet_of, IsPacket, length-packet_bytes, packet_of-packet_bytes,
}

-- What `handle_server_message` and `handle_client_data` get: a packet, or that the connection has ended; or the
-- call still waits.
pub data Incoming : Type 0 where
  packet : ChatPacket → Incoming
  lost waiting : Incoming

-- The call of `read_all` and the test of its result. `stack` is what the packet's memory held before, which
-- shows behind bytes that are too few.
abbrev pub after_read : Bytes → Outcome → Incoming
after_read stack (done []) = lost
after_read stack (done (c ∷ got)) = packet (packet_of ((c ∷ got) ++ drop (length (c ∷ got)) stack))
after_read stack error = lost
after_read stack waits = waiting

unfoldable pub read_packet : List Answer → Bytes → Bytes → Incoming
read_packet ans stack stream = after_read stack (read_all ans sizeof_packet stream)

-- The calls of one side one after another, each with what the system answers to it.
unfoldable pub read_packets : Bytes → List (List Answer) → Bytes → List Incoming
read_packets stack [] stream = []
read_packets stack (ans ∷ calls) stream =
    read_packet ans stack stream ∷ read_packets stack calls (drop sizeof_packet stream)

abbrev pub after_write : Outcome → Option Bytes → Option Bytes
after_write (done sent) (some later) = some (sent ++ later)
after_write (done sent) none = none
after_write error later = none
after_write waits later = none

-- The packets that one side sends one after another; none where a call fails or waits for ever.
unfoldable pub write_packets : List (List Answer × ChatPacket) → Option Bytes
write_packets [] = some []
write_packets ((ans, p) ∷ sends) =
    after_write (write_all ans (packet_bytes p)) (write_packets sends)

-- The calls move enough bytes, and none fails.
pub record Serves (ans : List Answer) : Type 0 where
  pub moves : NoFailure ans
  pub enough : sizeof_packet ≤ moving ans

-- A whole packet in front of the stream is read, however the system splits it.
pub read_packet-packet_bytes :
    (ans : List Answer) (stack : Bytes) (p : ChatPacket) (rest : Bytes)
    → Serves ans
    → IsPacket p
    → read_packet ans stack (packet_bytes p ++ rest) ≡ packet p
unfolding read_packet
read_packet-packet_bytes ans stack p rest h v =
    ap (after_read stack) (
      read_all-done ans sizeof_packet (packet_bytes p ++ rest) h.moves h.enough
      ∙ ap done (take-array sizeof_packet (packet_bytes p) rest (length-packet_bytes p v)))
    ∙ ap packet (packet_of-packet_bytes p (drop (length (packet_bytes p)) stack) v)

-- At the end of the stream the connection is lost.
read_packet-nil : (ans : List Answer) (stack : Bytes) → Serves ans → read_packet ans stack [] ≡ lost
unfolding read_packet
read_packet-nil ans stack h =
    ap (after_read stack) (read_all-done ans sizeof_packet [] h.moves h.enough)

-- The stream that packets make.
abbrev pub stream_of : List ChatPacket → Bytes
stream_of [] = []
stream_of (p ∷ ps) = packet_bytes p ++ stream_of ps

abbrev pub Sends : List (List Answer × ChatPacket) → Type 0
Sends sends = All (λ s. Serves s.0 × IsPacket s.1) sends

abbrev pub packets : List (List Answer × ChatPacket) → List ChatPacket
packets sends = map (λ s. s.1) sends

write_packets-Sends :
    (sends : List (List Answer × ChatPacket))
    → Sends sends
    → write_packets sends ≡ some (stream_of (packets sends))
unfolding write_packets
write_packets-Sends [] h = refl
write_packets-Sends ((ans, p) ∷ sends) h = rw (
  write_all-done ans (packet_bytes p) h.0.0.moves
      (omega (arith, length-packet_bytes p h.0.1, h.0.0.enough)),
  write_packets-Sends sends h.1,
)

read_packets-stream_of :
    (stack : Bytes) (sends : List (List Answer × ChatPacket)) (calls : List (List Answer))
    → Sends sends
    → All Serves calls
    → length calls ≡ suc (length sends)
    → read_packets stack calls (stream_of (packets sends)) ≡ map packet (packets sends) ++ lost ∷ []
unfolding read_packets
read_packets-stream_of stack sends [] h g e = absurd (omega arith)
read_packets-stream_of stack [] (ans ∷ []) h g e = rw (read_packet-nil ans stack g.0) refl
read_packets-stream_of stack [] (ans ∷ b ∷ calls) h g e = absurd (omega arith)
read_packets-stream_of stack ((a, p) ∷ sends) (ans ∷ calls) h g e =
    let later : Bytes = stream_of (packets sends) in
    rw
      (
        read_packet-packet_bytes ans stack p later g.0 h.0.1,
        drop-array sizeof_packet (packet_bytes p) later (length-packet_bytes p h.0.1),
        read_packets-stream_of stack sends calls h.1 g.1 (omega arith),
      )
      refl

-- Packets that one side sends one after another, with calls that move enough bytes and of which none fails: the
-- other side reads exactly them, in their order, however the system splits the writes and the reads and
-- whatever the memory of its packet holds, and in the call after them that the connection has ended.
pub read_packets-write_packets :
    (sends : List (List Answer × ChatPacket)) (calls : List (List Answer)) (stack : Bytes)
    → Sends sends
    → All Serves calls
    → length calls ≡ suc (length sends)
    → (stream : Bytes) × (write_packets sends ≡ some stream)
      × (read_packets stack calls stream ≡ map packet (packets sends) ++ lost ∷ [])
read_packets-write_packets sends calls stack h g e = (
  stream_of (packets sends),
  write_packets-Sends sends h,
  read_packets-stream_of stack sends calls h g e,
)

-- Where the connection ends inside of a packet, the part that came is handled as a packet, with what the memory
-- held before behind it.
pub read_packet-cut :
    (ans : List Answer) (stack : Bytes) (c : ℕ) (part : Bytes)
    → Serves ans
    → length (c ∷ part) < sizeof_packet
    → read_packet ans stack (c ∷ part)
      ≡ packet (packet_of ((c ∷ part) ++ drop (length (c ∷ part)) stack))
unfolding read_packet
read_packet-cut ans stack c part h short = ap (after_read stack) (
    read_all-done ans sizeof_packet (c ∷ part) h.moves h.enough
    ∙ ap done (take_of_le sizeof_packet (c ∷ part) (omega (arith, short))))
