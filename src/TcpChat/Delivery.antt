-- ===== src/TcpChat/Delivery.antt =====
-- From the packet that one client sends, through the server, to the line that another prints:
-- module3/task07/client.c and server.c.
use eltex_practice.Base.{
  ℕ, ◌≡◌, refl, ap, ap₂, sym, ◌∙◌, Bool, true, false, List, [], ◌∷◌, ◌++◌, Option, none, some,
  Bytes, arith, append-nil, ◌==◌, if◌then◌else◌, ◌&&◌, not, ended_at, Fits, ended_at-copy_string,
}
use eltex_practice.TcpChat.Packet.{
  MsgType, join, chat, leave, file_start, file_end, ChatPacket, max_nick_len, max_filename,
  max_chunk_size, build_packet,
}
use eltex_practice.TcpChat.Io.{Answer}
use eltex_practice.TcpChat.Client.{out_path}
use eltex_practice.TcpChat.Wire.{packet_bytes, IsPacket, build_packet-IsPacket}
use eltex_practice.TcpChat.Stream.{
  Incoming, packet, lost, waiting, read_packet, Serves, stream_of, read_packet-packet_bytes,
}
use eltex_practice.TcpChat.Server.{
  Server, handle_client_data, packets_to, Distinct, has, packets_to-handle_client_data,
}

-- What a message prints.
pub data Line : Type 0 where
  entered : Bytes → Line
  said : Bytes → Bytes → Line
  went : Bytes → Line
  receiving : Bytes → Bytes → Line
  cannot_create : Bytes → Line
  file_saved : Bytes → Line
  connection_lost prompt : Line

-- The `printf` of the switch; `opens` says whether `fopen` succeeds, `rx_file` whether a file is being received.
unfoldable pub line_of : Bool → Bool → ChatPacket → MsgType → List Line
line_of opens rx_file p join = entered (ended_at max_nick_len p.nickname) ∷ []
line_of opens rx_file p chat =
    said (ended_at max_nick_len p.nickname) (ended_at max_chunk_size p.payload) ∷ []
line_of opens rx_file p leave = went (ended_at max_nick_len p.nickname) ∷ []
line_of opens rx_file p file_start =
    if opens
    then receiving (ended_at max_filename p.filename) (ended_at max_nick_len p.nickname) ∷ []
    else cannot_create (out_path (ended_at max_filename p.filename)) ∷ []
line_of opens rx_file p file_end =
    if rx_file then file_saved (ended_at max_filename p.filename) ∷ [] else []
line_of opens rx_file p _ = []

unfoldable pub show_message : Bool → Bool → Incoming → List Line
show_message opens rx_file lost = connection_lost ∷ []
show_message opens rx_file waiting = []
show_message opens rx_file (packet p) = line_of opens rx_file p p.kind ++ prompt ∷ []

-- `handle_client_data` on what `read_all` comes to; a call that waits does nothing yet.
unfoldable pub serve : ℕ → Incoming → Server → Server × List (ℕ × ChatPacket)
serve fd (packet p) s = handle_client_data fd (some p) s
serve fd lost s = handle_client_data fd none s
serve fd waiting s = (s, [])

module _ (here there : List Answer) (stack stack' : Bytes) (fd : ℕ) (s : Server) where
  -- The bytes that a client of the server gets when these bytes have come from another.
  abbrev pub relayed : ℕ → Bytes → Bytes
  relayed k stream = stream_of (packets_to k (serve fd (read_packet here stack stream) s).1)

  -- What a client shows of them.
  abbrev pub shown : ℕ → Bytes → List Line
  shown k stream = show_message true false (read_packet there stack' (relayed k stream))

  module _ (table : Distinct s.clients) (serves : Serves here) (serves' : Serves there) where
    relayed-packet_bytes :
        (k : ℕ) (p : ChatPacket)
        → IsPacket p
        → relayed k (packet_bytes p)
          ≡ stream_of (if has k s.clients && not (k == fd) then p ∷ [] else [])
    unfolding serve
    relayed-packet_bytes k p v =
        ap (λ m. stream_of (packets_to k (serve fd m s).1))
          (ap (read_packet here stack) (sym (append-nil (packet_bytes p)))
            ∙ read_packet-packet_bytes here stack p [] serves v)
        ∙ ap stream_of (packets_to-handle_client_data k fd p s table)

    shown-packet_bytes :
        (k : ℕ) (p : ChatPacket)
        → IsPacket p
        → has k s.clients ≡ true
        → (k == fd) ≡ false
        → shown k (packet_bytes p) ≡ line_of true false p p.kind ++ prompt ∷ []
    unfolding show_message
    shown-packet_bytes k p v there_is other =
        ap (λ t. show_message true false (read_packet there stack' t))
          (relayed-packet_bytes k p v ∙ rw (there_is, other) refl)
        ∙ ap (show_message true false) (read_packet-packet_bytes there stack' p [] serves' v)

    -- What one client sends, every other client of the server shows: a text under the sender's nickname, that
    -- the sender came or went, and the name of a file that begins (where its copy can be created). The
    -- sender gets none of the four back. The table has no socket twice, the strings fit their arrays, and on the way
    -- to the server and from it no call fails and enough bytes are moved, in any pieces.
    pub shown-build_packet :
        (k : ℕ) (nickname text filename : Bytes)
        → Fits max_nick_len nickname
        → Fits max_chunk_size text
        → Fits max_filename filename
        → has k s.clients ≡ true
        → (k == fd) ≡ false
        → (shown k (packet_bytes (build_packet chat nickname (some text) none 0))
            ≡ said nickname text ∷ prompt ∷ [])
          × (shown k (packet_bytes (build_packet join nickname none none 0))
              ≡ entered nickname ∷ prompt ∷ [])
          × (shown k (packet_bytes (build_packet leave nickname none none 0))
              ≡ went nickname ∷ prompt ∷ [])
          × (shown k (packet_bytes (build_packet file_start nickname none (some filename) 0))
              ≡ receiving filename nickname ∷ prompt ∷ [])
          × (relayed fd (packet_bytes (build_packet chat nickname (some text) none 0)) ≡ [])
          × (relayed fd (packet_bytes (build_packet join nickname none none 0)) ≡ [])
          × (relayed fd (packet_bytes (build_packet leave nickname none none 0)) ≡ [])
          × (relayed fd (packet_bytes (build_packet file_start nickname none (some filename) 0))
              ≡ [])
    unfolding line_of build_packet
    shown-build_packet k nickname text filename n t f there_is other =
        let v = λ (kind : MsgType) (a b : Option Bytes).
          build_packet-IsPacket kind nickname a b 0 (omega arith) in
        let nick = ended_at-copy_string max_nick_len nickname n in
        let body = ended_at-copy_string max_chunk_size text t in
        let name = ended_at-copy_string max_filename filename f in
        let self : (has fd s.clients && not (fd == fd)) ≡ false = ground arith in
        (
          shown-packet_bytes k _ (v chat (some text) none) there_is other
              ∙ ap₂ (λ a b. said a b ∷ prompt ∷ []) nick body,
          shown-packet_bytes k _ (v join none none) there_is other
              ∙ ap (λ a. entered a ∷ prompt ∷ []) nick,
          shown-packet_bytes k _ (v leave none none) there_is other
              ∙ ap (λ a. went a ∷ prompt ∷ []) nick,
          shown-packet_bytes k _ (v file_start none (some filename)) there_is other
              ∙ ap₂ (λ a b. receiving a b ∷ prompt ∷ []) name nick,
          relayed-packet_bytes fd _ (v chat (some text) none) ∙ rw self refl,
          relayed-packet_bytes fd _ (v join none none) ∙ rw self refl,
          relayed-packet_bytes fd _ (v leave none none) ∙ rw self refl,
          relayed-packet_bytes fd _ (v file_start none (some filename)) ∙ rw self refl,
        )
