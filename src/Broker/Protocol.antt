-- ===== src/Broker/Protocol.antt =====
-- What the clients write, the broker reads.
use eltex_practice.Base.{
  ℕ, ◌≤◌, ◌<◌, ◌^◌, ◌≡◌, refl, List, [], ◌∷◌, ◌++◌, some, arith, Bytes, codes, str_eq_refl, length,
  length-append, take, take_of_le, Bool-cases, Option-cases, inl, inr, strip_prefix,
  strip_prefix-append, split_at-append, Free, Free-show, scan_int-show, show, length-show,
  scan_word_whole, skip_space_whole, length-scan_word, NoSpace, atoi-show,
}
use eltex_practice.Broker.{
  Broker, max_subscribers, register_subscriber, unregister_subscriber, register_publisher,
  route_message, nonempty, scan_request, handle_subscribe, handle_unsubscribe, parse_send,
  handle_send, begins, process_incoming_message, routed_text, Event, received, sigint, sigalrm,
  failed, run_broker,
}
use eltex_practice.Broker.Registry.{
  IsValid, register_subscriber-IsValid, unregister_subscriber-IsValid, register_publisher-IsValid,
  subscribed-register_subscriber,
}
use eltex_practice.Broker.Routing.{sent_to, sent_to-route_message}
use eltex_practice.Broker.Clients.{subscribe_text, unsubscribe_text, publish_text}

-- A topic that survives `%63s`: no blank in it, 63 bytes at most, and not empty.
abbrev pub IsWord : Bytes → Type 0
IsWord topic = NoSpace topic × (length topic ≤ 63) × (1 ≤ length topic)

nonempty_of_pos : (s : Bytes) → 1 ≤ length s → nonempty s ≡ some s
unfolding nonempty
nonempty_of_pos [] h = absurd (omega arith)
nonempty_of_pos (c ∷ s) h = refl

scan_request-text :
    (word : Bytes) (pid : ℕ) (topic : Bytes)
    → pid < 2 ^ 31
    → IsWord topic
    → scan_request word (word ++ (show pid ++ (codes "," ++ topic))) ≡ some (pid, topic)
unfolding scan_request
scan_request-text word pid topic small (blank, short, pos) = rw (
  strip_prefix-append word (show pid ++ (codes "," ++ topic)),
  scan_int-show pid b',' topic small refl,
  strip_prefix-append (codes ",") topic,
  skip_space_whole topic blank,
  scan_word_whole 63 topic blank short,
  nonempty_of_pos topic pos,
)

-- What the text of a request holds before it is cut at 511 bytes.
uncut :
    (word : Bytes) (pid : ℕ) (rest : Bytes)
    → length word ≤ 12
    → length rest ≤ 400
    → take 511 (word ++ (show pid ++ (codes "," ++ rest)))
      ≡ word ++ (show pid ++ (codes "," ++ rest))
uncut word pid rest h k = take_of_le 511 _ (
    omega (
      arith,
      length-append word (show pid ++ (codes "," ++ rest)),
      length-append (show pid) (codes "," ++ rest),
      length-show pid,
    ))

-- A subscriber's request makes the broker register that process for that topic, and send nothing.
pub process-subscribe_text :
    (pid : ℕ) (topic : Bytes) (b : Broker)
    → pid < 2 ^ 31
    → IsWord topic
    → process_incoming_message (subscribe_text pid topic) b ≡ (register_subscriber pid topic b, [])
unfolding process_incoming_message subscribe_text handle_subscribe strip_prefix
process-subscribe_text pid topic b small w = rw (
  uncut (codes "subscribe,") pid topic (omega arith) (omega arith),
  scan_request-text (codes "subscribe,") pid topic small w,
  handle_subscribe,
)

-- A cancellation makes it drop that subscription, and send nothing.
pub process-unsubscribe_text :
    (pid : ℕ) (topic : Bytes) (b : Broker)
    → pid < 2 ^ 31
    → IsWord topic
    → process_incoming_message (unsubscribe_text pid topic) b
      ≡ (unregister_subscriber pid topic b, [])
unfolding process_incoming_message unsubscribe_text handle_unsubscribe strip_prefix
process-unsubscribe_text pid topic b small w = rw (
  uncut (codes "unsubscribe,") pid topic (omega arith) (omega arith),
  scan_request-text (codes "unsubscribe,") pid topic small w,
  handle_unsubscribe,
)

parse_send-text :
    (pid : ℕ) (topic line : Bytes)
    → pid < 2 ^ 31
    → Free b',' topic
    → length topic ≤ 63
    → parse_send (codes "send," ++ (show pid ++ (codes "," ++ (topic ++ (codes "," ++ line)))))
      ≡ some (pid, topic, line)
unfolding parse_send
parse_send-text pid topic line small free short = rw (
  split_at-append b',' (codes "send") (show pid ++ (codes "," ++ (topic ++ (codes "," ++ line))))
      (refl, (refl, (refl, (refl, tt)))),
  split_at-append b',' (show pid) (topic ++ (codes "," ++ line)) (Free-show pid b',' refl),
  split_at-append b',' topic line free,
  atoi-show pid b',' (topic ++ (codes "," ++ line)) small refl,
  take_of_le 63 topic short,
)

-- A publisher's line of at most 254 bytes, whatever they are, makes the broker note the publisher and
-- route that line under that topic, if the pid is below 2^31 and the topic has at most 63 bytes and no
-- comma.
pub process-publish_text :
    (pid : ℕ) (topic line : Bytes) (b : Broker)
    → pid < 2 ^ 31
    → Free b',' topic
    → length topic ≤ 63
    → length line ≤ 254
    → process_incoming_message (publish_text pid topic line) b
      ≡ (register_publisher pid b, route_message topic line (register_publisher pid b))
unfolding process_incoming_message publish_text handle_send strip_prefix
process-publish_text pid topic line b small free short few = rw (
  uncut (codes "send,") pid (topic ++ (codes "," ++ line)) (omega arith)
      (omega (arith, length-append topic (codes "," ++ line))),
  parse_send-text pid topic line small free short,
  handle_send,
)

nonempty-short : (n : ℕ) (s t : Bytes) → nonempty s ≡ some t → length s ≤ n → length t ≤ n
unfolding nonempty
nonempty-short n [] t e h = ground arith
nonempty-short n (c ∷ s) t e h = ground arith

scan_request-short :
    (word text : Bytes) (pid : ℕ) (topic : Bytes)
    → scan_request word text ≡ some (pid, topic)
    → length topic ≤ 63
unfolding scan_request
scan_request-short word text pid topic e = grind (arith, nonempty-short, length-scan_word)

handle_subscribe-IsValid :
    (text : Bytes) {b : Broker} → IsValid b → IsValid (handle_subscribe text b)
unfolding handle_subscribe
handle_subscribe-IsValid text {b} v = elim (Option-cases (scan_request (codes "subscribe,") text)) [
  | inl e ↦ rw (e, handle_subscribe) v
  | inr ((pid, topic), e) ↦
      rw (e, handle_subscribe)
        (register_subscriber-IsValid pid topic (scan_request-short _ text pid topic e) v)
]

handle_unsubscribe-IsValid :
    (text : Bytes) {b : Broker} → IsValid b → IsValid (handle_unsubscribe text b)
unfolding handle_unsubscribe
handle_unsubscribe-IsValid text {b} v =
    elim (Option-cases (scan_request (codes "unsubscribe,") text)) [
      | inl e ↦ rw (e, handle_unsubscribe) v
      | inr ((pid, topic), e) ↦
          rw (e, handle_unsubscribe) (unregister_subscriber-IsValid pid topic v)
    ]

handle_send-IsValid : (text : Bytes) {b : Broker} → IsValid b → IsValid (handle_send text b).0
unfolding handle_send
handle_send-IsValid text {b} v = elim (Option-cases (parse_send text)) [
  | inl e ↦ rw (e, handle_send) v
  | inr ((pid, topic, payload), e) ↦ rw (e, handle_send) (register_publisher-IsValid pid v)
]

-- Whatever text arrives, the invariant of the tables is kept.
pub process-IsValid :
    (text : Bytes) {b : Broker} → IsValid b → IsValid (process_incoming_message text b).0
unfolding process_incoming_message
process-IsValid text {b} v = elim (Bool-cases (begins (codes "subscribe,") text)) [
  | inl e ↦ rw (e, process_incoming_message) (handle_subscribe-IsValid text v)
  | inr e ↦ elim (Bool-cases (begins (codes "unsubscribe,") text)) [
    | inl f ↦ rw (e, f, process_incoming_message) (handle_unsubscribe-IsValid text v)
    | inr f ↦ elim (Bool-cases (begins (codes "send,") text)) [
      | inl g ↦ rw (e, f, g, process_incoming_message) (handle_send-IsValid text v)
      | inr g ↦ rw (e, f, g, process_incoming_message) v
    ]
  ]
]

abbrev pub empty_broker : Broker
empty_broker = record { subscribers = []; publishers = [] }

run_broker-from : (es : List Event) {b : Broker} → IsValid b → IsValid (run_broker es b).0
unfolding run_broker
run_broker-from [] v = v
run_broker-from (received text ∷ es) v = run_broker-from es (process-IsValid text v)
run_broker-from (sigint ∷ es) v = v
run_broker-from (sigalrm ∷ es) v = v
run_broker-from (failed ∷ es) v = v

-- Started with empty tables and fed any messages and signals, the broker keeps at most 128
-- subscriptions and 128 publishers, every topic within 63 bytes, and no entry twice.
pub run_broker-IsValid : (es : List Event) → IsValid (run_broker es empty_broker).0
run_broker-IsValid es = run_broker-from es (record {
  few_subscribers = omega arith;
  few_publishers = omega arith;
  short = tt;
  distinct = tt;
  distinct_publishers = tt;
})

pub register_publisher-subscribers :
    (pid : ℕ) (b : Broker) → (register_publisher pid b).subscribers ≡ b.subscribers
unfolding register_publisher
register_publisher-subscribers pid b = ground arith

-- From a subscriber's request to the delivery: a process that asked for a topic gets the text of the
-- next publication on it exactly once, as the broker words it. The tables are valid and have room
-- for the subscription, both pids are below 2^31, the topic is a word without a comma, and the line
-- has at most 254 bytes.
pub subscribe-publish :
    (pid publisher : ℕ) (topic line : Bytes) {b : Broker}
    → IsValid b
    → length b.subscribers < max_subscribers
    → pid < 2 ^ 31
    → publisher < 2 ^ 31
    → IsWord topic
    → Free b',' topic
    → length line ≤ 254
    → let b' = (process_incoming_message (subscribe_text pid topic) b).0 in
      sent_to pid (process_incoming_message (publish_text publisher topic line) b').1
      ≡ routed_text topic line ∷ []
subscribe-publish pid publisher topic line {b} v room p q w free few =
    rw
      (
        process-subscribe_text pid topic b p w,
        process-publish_text publisher topic line (register_subscriber pid topic b) q free w.1 few,
        sent_to-route_message pid topic line
            (register_publisher publisher (register_subscriber pid topic b))
            (register_publisher-IsValid publisher
              (register_subscriber-IsValid pid topic w.1 v)).distinct,
        register_publisher-subscribers publisher (register_subscriber pid topic b),
        subscribed-register_subscriber pid pid topic topic b room w.1,
        str_eq_refl topic,
      )
      (ground arith)
