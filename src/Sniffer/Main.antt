-- ===== src/Sniffer/Main.antt =====
-- The capture loop and `main` of module3/task08/main.c, with `init_raw_socket` and `set_promisc_mode` of
-- sniffer.c. What the system and the user answer is a record and a list of events.
use eltex_practice.Base.{
  ℕ, Bool, true, false, ◌&&◌, ◌||◌, not, List, [], ◌∷◌, ◌++◌, Option, none, some, Bytes, leb, ◌==◌,
  if◌then◌else◌,
}
use eltex_practice.Sniffer.Parse.{ParsedPacket, parse_udp_packet, filter_chat_task6, filter_dns}
use eltex_practice.Sniffer.Log.{Entry, process_and_log_packet}

-- What the program does to its socket, to the interface and to the log; `fault` is a read out of bounds.
pub data Effect : Type 0 where
  opens_socket closes_socket opens_log closes_log fault : Effect
  promisc : Bool → Effect
  logs : List Entry → Effect

-- `recv`: a packet with the time that has passed, an error, or the interruption by the signal, after which
-- the loop ends.
pub data Event : Type 0 where
  packet : Bytes → Bytes → Event
  recv_error interrupted : Event

module _ (inet_ntoa : Bytes → Bytes) where
  unfoldable pub log_match : ParsedPacket → Bytes → ℕ → List Effect
  log_match pkt elapsed choice = elim (process_and_log_packet inet_ntoa pkt elapsed choice) [
    | none ↦ fault ∷ []
    | some entry ↦ logs entry ∷ []
  ]

  abbrev pub is_match : ParsedPacket → ℕ → ℕ → Bool
  is_match pkt choice chat_port =
      if choice == 1
      then filter_chat_task6 pkt chat_port
      else if choice == 2
      then filter_dns pkt
      else false

  -- One packet.
  unfoldable pub capture : ℕ → ℕ → Bytes → Bytes → List Effect
  capture choice chat_port buffer elapsed = elim (parse_udp_packet buffer) [
    | none ↦ fault ∷ []
    | some none ↦ []
    | some (some pkt) ↦ if is_match pkt choice chat_port then log_match pkt elapsed choice else []
  ]

  -- Whether the loop has ended, and its effects.
  unfoldable pub run_sniffer_loop : ℕ → ℕ → List Event → Bool × List Effect
  run_sniffer_loop choice chat_port [] = (false, [])
  run_sniffer_loop choice chat_port (interrupted ∷ events) = (true, [])
  run_sniffer_loop choice chat_port (recv_error ∷ events) = run_sniffer_loop choice chat_port events
  run_sniffer_loop choice chat_port (packet buffer elapsed ∷ events) =
      let (ended, later) = run_sniffer_loop choice chat_port events in
      (ended, capture choice chat_port buffer elapsed ++ later)

-- The answers before the loop: the calls that may fail, and what `scanf` reads.
pub record Setup : Type 0 where
  pub has_device : Bool
  pub socket_works : Bool
  pub if_index : ℕ
  pub bind_works : Bool
  pub promisc_on_works : Bool
  pub promisc_off_works : Bool
  pub choice : Option ℕ
  pub port : Option ℕ
  pub fopen_works : Bool

-- The socket, or none for a negative result; and the effects.
unfoldable pub init_raw_socket : Setup → Bool × List Effect
init_raw_socket setup =
    if not setup.socket_works
    then (false, [])
    else if setup.if_index == 0
    then (false, opens_socket ∷ closes_socket ∷ [])
    else if not setup.bind_works
    then (false, opens_socket ∷ closes_socket ∷ [])
    else (true, opens_socket ∷ [])

unfoldable pub set_promisc_mode : Setup → Bool → List Effect
set_promisc_mode setup enable =
    if setup.if_index == 0
    then []
    else if (if enable then setup.promisc_on_works else setup.promisc_off_works)
    then promisc enable ∷ []
    else []

-- None for -1.
unfoldable pub prompt_filter_choice : Setup → Option ℕ
prompt_filter_choice setup = elim setup.choice [
  | none ↦ none
  | some choice ↦ if (choice == 1) || (choice == 2) then some choice else none
]

-- The port for the chat filter, 0 for the other; none where the input is refused.
unfoldable pub prompt_port : Setup → ℕ → Option ℕ
prompt_port setup choice =
    if choice == 1
    then elim setup.port [
      | none ↦ none
      | some port ↦ if leb 1 port && leb port 65535 then some port else none
    ]
    else some 0

-- Leaving with an error, and leaving after the loop.
unfoldable pub give_up : Setup → Bool × List Effect
give_up setup = (true, set_promisc_mode setup false ++ closes_socket ∷ [])

module _ (inet_ntoa : Bytes → Bytes) where
  -- From the opening of the log to the end.
  unfoldable pub run_capture : Setup → ℕ → ℕ → List Event → Bool × List Effect
  run_capture setup choice chat_port events =
      let (ended, effects) = run_sniffer_loop inet_ntoa choice chat_port events in
      let log = if setup.fopen_works then opens_log ∷ [] else [] in
      let close = if setup.fopen_works then closes_log ∷ [] else [] in
      if ended
      then (true, log ++ (effects ++ (set_promisc_mode setup false ++ (closes_socket ∷ close))))
      else (false, log ++ effects)

  unfoldable pub with_choice : Setup → List Event → Bool × List Effect
  with_choice setup events = elim (prompt_filter_choice setup) [
    | none ↦ give_up setup
    | some choice ↦ elim (prompt_port setup choice) [
      | none ↦ give_up setup
      | some chat_port ↦ run_capture setup choice chat_port events
    ]
  ]

  -- Whether the program has ended, and what it did.
  unfoldable pub sniffer_main : Setup → List Event → Bool × List Effect
  sniffer_main setup events =
      let (opened, start) = init_raw_socket setup in
      let (ended, effects) = with_choice setup events in
      if not setup.has_device
      then (true, [])
      else if not opened
      then (true, start)
      else (ended, start ++ (set_promisc_mode setup true ++ effects))

-- What is left behind: whether the socket is open, the interface promiscuous, and the log open.
pub record Left : Type 0 where
  pub socket : Bool
  pub promiscuous : Bool
  pub log : Bool

abbrev pub apply : Effect → Left → Left
apply opens_socket l = record { socket = true; promiscuous = l.promiscuous; log = l.log }
apply closes_socket l = record { socket = false; promiscuous = l.promiscuous; log = l.log }
apply opens_log l = record { socket = l.socket; promiscuous = l.promiscuous; log = true }
apply closes_log l = record { socket = l.socket; promiscuous = l.promiscuous; log = false }
apply fault l = l
apply (promisc on) l = record { socket = l.socket; promiscuous = on; log = l.log }
apply (logs entry) l = l

abbrev pub settle : List Effect → Left → Left
settle [] l = l
settle (e ∷ es) l = settle es (apply e l)

abbrev pub nothing : Left
nothing = record { socket = false; promiscuous = false; log = false }
