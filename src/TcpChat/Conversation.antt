-- ===== src/TcpChat/Conversation.antt =====
-- A conversation: what one client's user types, as another client shows it. module3/task07 as a whole.
use eltex_practice.Base.{
  ℕ, suc, ◌≡◌, refl, ap, ap₂, sym, ◌∙◌, true, false, List, [], ◌∷◌, ◌++◌, map, Option, none, some,
  Bytes, arith, length, ◌==◌, All, All-append, Fits, append_assoc, ended_at-copy_string,
}
use eltex_practice.TcpChat.Packet.{
  join, chat, leave, ChatPacket, build_packet, max_nick_len, max_chunk_size,
}
use eltex_practice.TcpChat.Io.{Answer}
use eltex_practice.TcpChat.Wire.{IsPacket, build_packet-IsPacket}
use eltex_practice.TcpChat.Stream.{packet, Serves, packets, write_packets, read_packets}
use eltex_practice.TcpChat.Server.{Server, run_server_loop, packets_to, Distinct, has}
use eltex_practice.TcpChat.Client.{user_command, say, Receiver}
use eltex_practice.TcpChat.Session.{
  IsLine, packets_of, typed, poll_failed, Event, client_main, client_main-lines, run_command,
}
use eltex_practice.TcpChat.Broadcast.{events_of, packets-Sends, run_server_loop-write_packets}
use eltex_practice.TcpChat.Delivery.{Line, entered, said, went, prompt, line_of, show_message}

-- A line of the user that is sent as a text, and fits the packet with its terminator.
pub record IsText (s : Bytes) : Type 0 where
  pub fits : Fits max_chunk_size s
  pub says : user_command s ≡ say s

-- What a client shows of the packets that it gets, one after another, while it receives no file.
abbrev pub show_all : List ChatPacket → List Line
show_all [] = []
show_all (p ∷ ps) = show_message true false (packet p) ++ show_all ps

-- Each text under the nickname, with the prompt behind it.
abbrev pub said_lines : Bytes → List Bytes → List Line
said_lines nickname [] = []
said_lines nickname (s ∷ texts) = said nickname s ∷ prompt ∷ said_lines nickname texts

show_all-append : (ps qs : List ChatPacket) → show_all (ps ++ qs) ≡ show_all ps ++ show_all qs
show_all-append [] qs = refl
show_all-append (p ∷ ps) qs =
    ap (λ t. show_message true false (packet p) ++ t) (show_all-append ps qs)
    ∙ sym (append_assoc (show_message true false (packet p)) (show_all ps) (show_all qs))

module _ (nickname : Bytes) (disk : Bytes → Option Bytes) (old : Bytes) where
  text-sent :
      (s : Bytes)
      → IsText s
      → run_command nickname disk old (user_command s)
        ≡ record { running = true; sent = build_packet chat nickname (some s) none 0 ∷ [] }
  unfolding run_command
  text-sent s t = rw t.says refl

  show_all-texts :
      (texts : List Bytes)
      → Fits max_nick_len nickname
      → All IsText texts
      → show_all (packets_of nickname disk old texts) ≡ said_lines nickname texts
  unfolding line_of build_packet show_message
  show_all-texts [] n h = refl
  show_all-texts (s ∷ texts) n h = rw (text-sent s h.0) (
      ap₂ (λ a b. said a b ∷ prompt ∷ show_all (packets_of nickname disk old texts))
        (ended_at-copy_string max_nick_len nickname n)
        (ended_at-copy_string max_chunk_size s h.0.fits)
      ∙ ap (λ t. said nickname s ∷ prompt ∷ t) (show_all-texts texts n h.1))

  texts-IsPacket :
      (texts : List Bytes) → All IsText texts → All IsPacket (packets_of nickname disk old texts)
  texts-IsPacket [] h = tt
  texts-IsPacket (s ∷ texts) h =
      rw (text-sent s h.0) (
        build_packet-IsPacket chat nickname (some s) none 0 (omega arith),
        texts-IsPacket texts h.1,
      )

  texts-IsLine : (texts : List Bytes) → All IsText texts → All (IsLine nickname disk old) texts
  texts-IsLine [] h = tt
  texts-IsLine (s ∷ texts) h =
      ((h.0.fits.whole, ap (λ t. t.running) (text-sent s h.0)), texts-IsLine texts h.1)

  show_all-session :
      (texts : List Bytes)
      → Fits max_nick_len nickname
      → All IsText texts
      → show_all (
          build_packet join nickname none none 0
          ∷ (packets_of nickname disk old texts ++ build_packet leave nickname none none 0 ∷ []))
        ≡ entered nickname ∷ prompt ∷ (said_lines nickname texts ++ went nickname ∷ prompt ∷ [])
  unfolding line_of build_packet show_message
  show_all-session texts n h =
      let nick = ended_at-copy_string max_nick_len nickname n in
      let last : ChatPacket = build_packet leave nickname none none 0 in
      ap₂ (λ a t. entered a ∷ prompt ∷ t) nick
        (show_all-append (packets_of nickname disk old texts) (last ∷ [])
          ∙ ap₂ (λ t a. t ++ went a ∷ prompt ∷ []) (show_all-texts texts n h) nick)

  session-IsPacket :
      (texts : List Bytes)
      → All IsText texts
      → All IsPacket (
          build_packet join nickname none none 0
          ∷ (packets_of nickname disk old texts ++ build_packet leave nickname none none 0 ∷ []))
  session-IsPacket texts h = (
    build_packet-IsPacket join nickname none none 0 (omega arith),
    All-append IsPacket (packets_of nickname disk old texts)
        (build_packet leave nickname none none 0 ∷ []) (texts-IsPacket texts h)
        (build_packet-IsPacket leave nickname none none 0 (omega arith), tt),
  )

  -- One client's user types texts until the signal ends the client. Every other client of the server, which is
  -- receiving no file, shows that the sender came, each text once under the sender's nickname and in order, and
  -- that the sender left. Nickname and texts fit their arrays and no text is a command; between the clients
  -- and the server no call fails and enough bytes are moved, in any pieces; the table has no socket twice.
  pub client_main-show_all :
      (texts : List Bytes) (more : List Event) (mine : Receiver) (k fd : ℕ)
      (sends : List (List Answer × ChatPacket)) (calls : List (List Answer)) (stack : Bytes)
      (s : Server)
      → Fits max_nick_len nickname
      → All IsText texts
      → packets sends
        ≡ (client_main nickname disk old
            (map (typed nickname disk old) texts ++ poll_failed ∷ more)
            mine).sent
      → All (λ t. Serves t.0) sends
      → All Serves calls
      → length calls ≡ suc (length sends)
      → Distinct s.clients
      → has k s.clients ≡ true
      → (k == fd) ≡ false
      → (stream : Bytes) × (write_packets sends ≡ some stream)
        × (show_all
              (packets_to k (run_server_loop (events_of fd (read_packets stack calls stream)) s).1)
            ≡ entered nickname
              ∷ prompt
              ∷ (said_lines nickname texts ++ went nickname ∷ prompt ∷ []))
  client_main-show_all texts more mine k fd sends calls stack s n h e serves g len d there_is
        other =
      let sent = e ∙ client_main-lines nickname disk old texts more mine (texts-IsLine texts h) in
      let (stream, written, relayed) =
        run_server_loop-write_packets k fd sends calls stack s
          (packets-Sends sends _ sent serves (session-IsPacket texts h)) g len d there_is other in
      (stream, written, ap show_all (relayed.arrived ∙ sent) ∙ show_all-session texts n h)
