-- ===== src/UdpChat/Chat.antt =====
-- The two handlers and the main loop: module3/task06/chat.c and main.c. A program is given by its pid and
-- its nickname; what `select`, `recvfrom` and `fgets` answer are events.
use eltex_practice.Base.{
  cut_newline, ℕ, Bool, true, false, ◌&&◌, ◌||◌, not, List, [], ◌∷◌, ◌++◌, Option, none, some,
  Bytes, codes, str_eq, until_nul, take, drop, length, ◌==◌, if◌then◌else◌, ended_at,
}
use eltex_practice.UdpChat.Packet.{
  ChatPacket, build_packet, packet_of, sizeof_packet, max_nick_len, max_text_len, msg_join,
  msg_chat, msg_leave,
}

-- What appears on the terminal.
pub data Line : Type 0 where
  joined : Bytes → ℕ → Line
  said : Bytes → Bytes → Line
  left : Bytes → ℕ → Line
  own : Bytes → Line
  prompt : Line

unfoldable pub show_packet : ChatPacket → List Line
show_packet p =
    let nickname = ended_at max_nick_len p.nickname in
    let text = ended_at max_text_len p.text in
    if p.kind == msg_join
    then joined nickname p.pid ∷ prompt ∷ []
    else if p.kind == msg_chat
    then said nickname text ∷ prompt ∷ []
    else if p.kind == msg_leave
    then left nickname p.pid ∷ prompt ∷ []
    else prompt ∷ []

-- `received` is what `recvfrom` stored, or none for an error; `stack` is what the packet's memory held
-- before, which shows behind a datagram that is too short.
unfoldable pub handle_incoming_packet : ℕ → Bytes → Option Bytes → List Line
handle_incoming_packet getpid stack none = []
handle_incoming_packet getpid stack (some received) =
    let packet = packet_of (take sizeof_packet received ++ drop (length received) stack) in
    if packet.pid == getpid then [] else show_packet packet

-- What a line does: whether the program goes on, what it prints, and what it sends.
pub record Done : Type 0 where
  pub running : Bool
  pub lines : List Line
  pub sent : List ChatPacket

abbrev pub is_exit : Bytes → Bool
is_exit buffer = str_eq buffer (codes "exit") || str_eq buffer (codes "quit")

unfoldable pub handle_text : ℕ → Bytes → Bytes → Done
handle_text getpid nickname [] = record { running = true; lines = prompt ∷ []; sent = [] }
handle_text getpid nickname (c ∷ s) =
    if is_exit (c ∷ s) then record { running = false; lines = []; sent = [] } else record {
      running = true;
      lines = own (c ∷ s) ∷ prompt ∷ [];
      sent = build_packet getpid msg_chat nickname (some (c ∷ s)) ∷ [];
    }

-- `fgets` gives none at the end of the input; what it gives is a C string of at most 511 bytes.
unfoldable pub handle_user_input : ℕ → Bytes → Option Bytes → Done
handle_user_input getpid nickname none = record { running = true; lines = []; sent = [] }
handle_user_input getpid nickname (some buffer) =
    handle_text getpid nickname (cut_newline (until_nul buffer))

-- One return of `select`. In `ready` a descriptor that is not ready is none, and the last field says
-- whether the signal came before the test of the loop.
pub data Event : Type 0 where
  select_failed : Event
  ready : Option (Option Bytes) → Option (Option Bytes) → Bool → Event

abbrev pub from_network : ℕ → Bytes → Option (Option Bytes) → List Line
from_network getpid stack none = []
from_network getpid stack (some received) = handle_incoming_packet getpid stack received

abbrev pub from_user : ℕ → Bytes → Option (Option Bytes) → Done
from_user getpid nickname none = record { running = true; lines = []; sent = [] }
from_user getpid nickname (some line) = handle_user_input getpid nickname line

-- The main loop: whether it has ended, what was printed, and what was sent.
unfoldable pub main_loop : ℕ → Bytes → Bytes → List Event → Done
main_loop getpid nickname stack [] = record { running = true; lines = []; sent = [] }
main_loop getpid nickname stack (select_failed ∷ events) = record {
  running = false;
  lines = [];
  sent = [];
}
main_loop getpid nickname stack (ready received line sigint ∷ events) =
    let shown = from_network getpid stack received in
    let done = from_user getpid nickname line in
    let rest = main_loop getpid nickname stack events in
    if done.running && not sigint
    then record {
      running = rest.running;
      lines = shown ++ (done.lines ++ rest.lines);
      sent = done.sent ++ rest.sent;
    }
    else record { running = false; lines = shown ++ done.lines; sent = done.sent }

-- `main` behind the set-up: the first packet, the loop, and the last packet when the loop has ended.
unfoldable pub chat_main : ℕ → Bytes → Bytes → List Event → Done
chat_main getpid nickname stack events =
    let done = main_loop getpid nickname stack events in
    record {
      running = done.running;
      lines = prompt ∷ done.lines;
      sent =
          build_packet getpid msg_join nickname none
          ∷ (done.sent
              ++ (if done.running then [] else build_packet getpid msg_leave nickname none ∷ []));
    }
