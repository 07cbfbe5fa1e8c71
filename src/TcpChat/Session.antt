-- ===== src/TcpChat/Session.antt =====
-- The loop of the chat client and its `main`: module3/task07/client.c. What `poll`, `read_all`, `fgets` and
-- `fopen` answer are events; `disk` gives the content of the files that can be opened.
use eltex_practice.Base.{
  ◌≡◌, refl, ap, ◌∙◌, Bool, true, false, ◌&&◌, not, List, [], ◌∷◌, ◌++◌, map, Option, none, some,
  Bytes, Free, until_nul, until_nul_whole, cut_newline, cut_newline-line, Free-line, if◌then◌else◌,
  All,
}
use eltex_practice.TcpChat.Packet.{ChatPacket, join, chat, leave, build_packet}
use eltex_practice.TcpChat.Client.{
  Receiver, handle_packet, user_command, Command, nothing, quit, upload, say, upload_file,
}

-- What one line or one message does: whether the client goes on, what it sends, and the receiving side.
pub record Turn : Type 0 where
  pub running : Bool
  pub sent : List ChatPacket

-- `read_all` gives none where the connection is lost; with a packet comes the success of `fopen`.
unfoldable pub handle_server_message : Option (ChatPacket × Bool) → Receiver → Bool × Receiver
handle_server_message none r = (false, r)
handle_server_message (some (packet, opens)) r = (true, handle_packet opens packet r)

-- One return of `poll`: a descriptor that is not ready is none, and the last field says whether the signal
-- came before the test of the loop.
pub data Event : Type 0 where
  poll_failed : Event
  ready : Option (Option (ChatPacket × Bool)) → Option (Option Bytes) → Bool → Event

abbrev pub from_server : Option (Option (ChatPacket × Bool)) → Receiver → Bool × Receiver
from_server none r = (true, r)
from_server (some message) r = handle_server_message message r

-- What the loop comes to.
pub record Client : Type 0 where
  pub running : Bool
  pub sent : List ChatPacket
  pub receiver : Receiver

module _ (nickname : Bytes) (disk : Bytes → Option Bytes) (old : Bytes) where
  unfoldable pub run_command : Command → Turn
  run_command nothing = record { running = true; sent = [] }
  run_command quit = record { running = false; sent = [] }
  run_command (say text) = record {
    running = true;
    sent = build_packet chat nickname (some text) none 0 ∷ [];
  }
  run_command (upload path) = elim (disk path) [
    | none ↦ record { running = true; sent = [] }
    | some content ↦ record { running = true; sent = upload_file nickname path content old }
  ]

  -- `fgets` gives none at the end of the input.
  unfoldable pub process_user_input : Option Bytes → Turn
  process_user_input none = record { running = true; sent = [] }
  process_user_input (some buffer) = run_command (user_command (cut_newline (until_nul buffer)))

  abbrev pub from_user : Option (Option Bytes) → Turn
  from_user none = record { running = true; sent = [] }
  from_user (some line) = process_user_input line

  unfoldable pub run_client_loop : List Event → Receiver → Client
  run_client_loop [] r = record { running = true; sent = []; receiver = r }
  run_client_loop (poll_failed ∷ events) r = record { running = false; sent = []; receiver = r }
  run_client_loop (ready message line sigint ∷ events) r =
      let (connected, r') = from_server message r in
      let turn = from_user line in
      let later = run_client_loop events r' in
      if connected && (turn.running && not sigint)
      then record {
        running = later.running;
        sent = turn.sent ++ later.sent;
        receiver = later.receiver;
      }
      else record { running = false; sent = turn.sent; receiver = r' }

  -- `main` behind the connection.
  unfoldable pub client_main : List Event → Receiver → Client
  client_main events r =
      let client = run_client_loop events r in
      record {
        running = client.running;
        sent =
            build_packet join nickname none none 0
            ∷ (client.sent
                ++ (if client.running then [] else build_packet leave nickname none none 0 ∷ []));
        receiver = client.receiver;
      }

  -- A line that is a command of the user, in front of the line end.
  handle-line :
      (s : Bytes)
      → Free 0 s
      → process_user_input (some (s ++ 10 ∷ [])) ≡ run_command (user_command s)
  unfolding process_user_input
  handle-line s h =
      ap (λ t. run_command (user_command (cut_newline t)))
        (until_nul_whole (s ++ 10 ∷ []) (Free-line s h))
      ∙ ap (λ t. run_command (user_command t)) (cut_newline-line s)

  -- A line without zero bytes that is not the command to quit.
  abbrev pub IsLine : Bytes → Type 0
  IsLine s = Free 0 s × ((run_command (user_command s)).running ≡ true)

  abbrev pub typed : Bytes → Event
  typed s = ready none (some (some (s ++ 10 ∷ []))) false

  abbrev pub packets_of : List Bytes → List ChatPacket
  packets_of [] = []
  packets_of (s ∷ lines) = (run_command (user_command s)).sent ++ packets_of lines

  run_client_loop-lines :
      (lines : List Bytes) (more : List Event) (r : Receiver)
      → All IsLine lines
      → let client = run_client_loop (map typed lines ++ poll_failed ∷ more) r in
        (client.running ≡ false) × (client.sent ≡ packets_of lines)
  unfolding run_client_loop
  run_client_loop-lines [] more r h = (refl, refl)
  run_client_loop-lines (s ∷ lines) more r ((f, go), hs) =
      let later = run_client_loop-lines lines more r hs in
      rw (handle-line s f)
        (rw (go) (later.0, ap (λ t. (run_command (user_command s)).sent ++ t) later.1))

  -- A session of typed lines that the signal ends: the client sends that it came, the packets of the lines
  -- in their order, and that it left.
  pub client_main-lines :
      (lines : List Bytes) (more : List Event) (r : Receiver)
      → All IsLine lines
      → (client_main (map typed lines ++ poll_failed ∷ more) r).sent
        ≡ build_packet join nickname none none 0
          ∷ (packets_of lines ++ build_packet leave nickname none none 0 ∷ [])
  unfolding client_main
  client_main-lines lines more r h =
      let loop = run_client_loop-lines lines more r h in rw (loop.0, loop.1) refl
