-- ===== src/RawUdp/Client.antt =====
-- The client of the echo service: module3/task09/client_main.c, with `send_raw_message` and
-- `send_clean_shutdown` of client_logic.c. What `select`, `fgets` and `recvfrom` answer are events.
use eltex_practice.Base.{
  ℕ, ◌≡◌, refl, ap, Bool, true, false, ◌||◌, List, [], ◌∷◌, ◌++◌, Option, Bytes, until_nul, ◌==◌,
  if◌then◌else◌,
}
use eltex_practice.RawUdp.Packet.{build_udp_packet}
use eltex_practice.RawUdp.Server.{shutdown_msg, wait_for_server_reply}

-- `strcspn(input_buf, "\r\n")`
unfoldable pub cut_line_end : Bytes → Bytes
cut_line_end [] = []
cut_line_end (c ∷ s) = if (c == 13) || (c == 10) then [] else c ∷ cut_line_end s

-- One round of the loop: `select` fails or runs out of time, `fgets` ends, or a line with what `recvfrom`
-- answers behind it. `interrupted` is the signal between two rounds.
pub data Event : Type 0 where
  select_failed timeout eof interrupted : Event
  line : Bytes → List (Option Bytes) → Event

-- Whether the loop has ended, the packets that were sent, and the replies: none for a timeout.
pub record Client : Type 0 where
  pub ended : Bool
  pub sent : List Bytes
  pub replies : List (Option (Option Bytes))

module _ (local_ip server_ip client_port server_port : ℕ) where
  abbrev pub send_raw_message : Bytes → Bytes
  send_raw_message message = build_udp_packet local_ip server_ip client_port server_port message

  -- One line that is not empty, behind the loop's later rounds.
  abbrev pub exchange : Bytes → List (Option Bytes) → Client → Client
  exchange [] frames later = later
  exchange (c ∷ s) frames later = record {
    ended = later.ended;
    sent = send_raw_message (c ∷ s) ∷ later.sent;
    replies = wait_for_server_reply 5 client_port server_port frames ∷ later.replies;
  }

  unfoldable pub client_loop : List Event → Client
  client_loop [] = record { ended = false; sent = []; replies = [] }
  client_loop (timeout ∷ events) = client_loop events
  client_loop (select_failed ∷ events) = record { ended = true; sent = []; replies = [] }
  client_loop (eof ∷ events) = record { ended = true; sent = []; replies = [] }
  client_loop (interrupted ∷ events) = record { ended = true; sent = []; replies = [] }
  client_loop (line input frames ∷ events) =
      let later = client_loop events in exchange (cut_line_end (until_nul input)) frames later

  -- `main` behind the set-up of the sockets: the server is told of the end.
  unfoldable pub client_main : List Event → Client
  client_main events =
      let client = client_loop events in
      record {
        ended = client.ended;
        sent = client.sent ++ (if client.ended then send_raw_message shutdown_msg ∷ [] else []);
        replies = client.replies;
      }

  -- Time that runs out changes nothing.
  abbrev pub without_timeouts : List Event → List Event
  without_timeouts [] = []
  without_timeouts (timeout ∷ events) = without_timeouts events
  without_timeouts (select_failed ∷ events) = select_failed ∷ without_timeouts events
  without_timeouts (eof ∷ events) = eof ∷ without_timeouts events
  without_timeouts (interrupted ∷ events) = interrupted ∷ without_timeouts events
  without_timeouts (line input frames ∷ events) = line input frames ∷ without_timeouts events

  pub client_loop-without_timeouts :
      (events : List Event) → client_loop (without_timeouts events) ≡ client_loop events
  unfolding client_loop
  client_loop-without_timeouts [] = refl
  client_loop-without_timeouts (timeout ∷ events) = client_loop-without_timeouts events
  client_loop-without_timeouts (select_failed ∷ events) = refl
  client_loop-without_timeouts (eof ∷ events) = refl
  client_loop-without_timeouts (interrupted ∷ events) = refl
  client_loop-without_timeouts (line input frames ∷ events) =
      ap (exchange (cut_line_end (until_nul input)) frames) (client_loop-without_timeouts events)
