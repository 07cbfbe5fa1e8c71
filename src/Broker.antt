-- ===== src/Broker.antt =====
-- The broker of the publish/subscribe service: module3/task02/broker.c.
-- `subscribers` and `publishers` are the first `subscriber_count` and `publisher_count` entries of
-- the two arrays; shifting the entries behind a removed one down is removal from the list. A pid
-- is the 32-bit pattern of a `pid_t`: it is only read, compared and passed on.
-- What `printf` and `fprintf` report is left out, and so is the outcome of `msgsnd` and `kill`,
-- on which only such reports depend.
pub mod Registry
pub mod Routing
pub mod Clients
pub mod Protocol
pub mod Refinement
pub mod Programs
pub mod Startup
pub mod Leaving
mod Tests
use eltex_practice.Base.{
  ℕ, zero, suc, ◌+◌, Bool, true, false, ◌&&◌, ◌||◌, List, [], ◌∷◌, ◌++◌, Option, none, some, ◌>>=◌,
  Bytes, codes, str_eq, strip_prefix, split_at, scan_int, skip_space, scan_word, atoi, take, length,
  leb, ltb, ◌==◌, if◌then◌else◌, any, map,
}

pub record Subscriber : Type 0 where
  pub pid : ℕ
  pub topic : Bytes

pub record Broker : Type 0 where
  pub subscribers : List Subscriber
  pub publishers : List ℕ

-- What the broker does to the outside.
pub data Effect : Type 0 where
  send : ℕ → Bytes → Effect
  interrupt : ℕ → Effect
  remove_queue : Effect

abbrev pub max_subscribers : ℕ
max_subscribers = 128

abbrev pub max_publishers : ℕ
max_publishers = 128

-- The test that both loops make: this process has this topic.
abbrev pub is_entry : ℕ → Bytes → Subscriber → Bool
is_entry pid topic s = (s.pid == pid) && str_eq s.topic topic

pub register_subscriber : ℕ → Bytes → Broker → Broker
register_subscriber pid topic b =
    if leb max_subscribers (length b.subscribers)
    then b
    else if any (is_entry pid topic) b.subscribers
    then b
    else record b {
      subscribers = b.subscribers ++ record { pid = pid; topic = take 63 topic } ∷ [];
    }

-- The entry that the loop meets first goes, and those behind it move down.
pub remove_entry : ℕ → Bytes → List Subscriber → List Subscriber
remove_entry pid topic [] = []
remove_entry pid topic (s ∷ ss) = if is_entry pid topic s then ss else s ∷ remove_entry pid topic ss

pub unregister_subscriber : ℕ → Bytes → Broker → Broker
unregister_subscriber pid topic b = record b { subscribers = remove_entry pid topic b.subscribers }

pub register_publisher : ℕ → Broker → Broker
register_publisher pid b =
    if leb max_publishers (length b.publishers)
    then b
    else if any (λ p. p == pid) b.publishers
    then b
    else record b { publishers = b.publishers ++ pid ∷ [] }

-- `snprintf(mtext, 512, "[%s]: %s", topic, payload)`
abbrev pub routed_text : Bytes → Bytes → Bytes
routed_text topic payload = take 511 (codes "[" ++ (topic ++ (codes "]: " ++ payload)))

pub route_loop : Bytes → Bytes → List Subscriber → List Effect
route_loop topic text [] = []
route_loop topic text (s ∷ ss) =
    if str_eq s.topic topic
    then send s.pid text ∷ route_loop topic text ss
    else route_loop topic text ss

pub route_message : Bytes → Bytes → Broker → List Effect
unfolding route_loop
route_message topic payload b = route_loop topic (routed_text topic payload) b.subscribers

pub notify_clients : Broker → List Effect
notify_clients b = map (λ s. interrupt s.pid) b.subscribers ++ map interrupt b.publishers

nonempty : Bytes → Option Bytes
nonempty [] = none
nonempty (c ∷ s) = some (c ∷ s)

-- `sscanf(msg_text, "<word>,%d,%63s", &pid, topic) == 2`
pub scan_request : Bytes → Bytes → Option (ℕ × Bytes)
unfolding nonempty
scan_request word text = do
  s ← strip_prefix word text
  (pid, r) ← scan_int s
  t ← strip_prefix (codes ",") r
  topic ← nonempty (scan_word 63 (skip_space t))
  some (pid, topic)

pub handle_subscribe : Bytes → Broker → Broker
handle_subscribe text b = elim (scan_request (codes "subscribe,") text) [
  | none ↦ b
  | some (pid, topic) ↦ register_subscriber pid topic b
]

pub handle_unsubscribe : Bytes → Broker → Broker
handle_unsubscribe text b = elim (scan_request (codes "unsubscribe,") text) [
  | none ↦ b
  | some (pid, topic) ↦ unregister_subscriber pid topic b
]

-- The three commas of `send,<pid>,<topic>,<payload>`: pid, topic and payload.
pub parse_send : Bytes → Option (ℕ × Bytes × Bytes)
parse_send text = do
  (word, after1) ← split_at b',' text
  (number, after2) ← split_at b',' after1
  (topic, payload) ← split_at b',' after2
  some (atoi after1, take 63 topic, payload)

pub handle_send : Bytes → Broker → Broker × List Effect
handle_send text b = elim (parse_send text) [
  | none ↦ (b, [])
  | some (pid, topic, payload) ↦
      (let b' = register_publisher pid b in (b', route_message topic payload b'))
]

-- `strncmp(text, word, strlen(word)) == 0`
abbrev pub begins : Bytes → Bytes → Bool
begins word text = elim (strip_prefix word text) [ none ↦ false | some rest ↦ true ]

pub process_incoming_message : Bytes → Broker → Broker × List Effect
process_incoming_message text b =
    if begins (codes "subscribe,") text
    then (handle_subscribe text b, [])
    else if begins (codes "unsubscribe,") text
    then (handle_unsubscribe text b, [])
    else if begins (codes "send,") text
    then handle_send text b
    else (b, [])

-- What `msgrcv` returns: a message, or -1 because of SIGINT, of the alarm, or of an error.
pub data Event : Type 0 where
  received : Bytes → Event
  sigint sigalrm failed : Event

pub shutdown_broker : Broker → List Effect
shutdown_broker b = notify_clients b ++ remove_queue ∷ []

-- The loop of `run_broker` and what follows it, on the events in their order; where the list ends
-- the broker still waits in `msgrcv`.
pub run_broker : List Event → Broker → Broker × List Effect
run_broker [] b = (b, [])
run_broker (received text ∷ es) b =
    let (b1, now) = process_incoming_message text b in
    let (b2, later) = run_broker es b1 in (b2, now ++ later)
run_broker (sigint ∷ es) b = (b, shutdown_broker b)
run_broker (sigalrm ∷ es) b = (b, shutdown_broker b)
run_broker (failed ∷ es) b = (b, shutdown_broker b)
