-- ===== src/Broker/Tests.antt =====
-- Runs of the broker and its clients, and its theorems at concrete inputs.
use eltex_practice.Base.{
  ◌≡◌, refl, false, List, [], ◌∷◌, arith, Bytes, codes, Free, str_eq, strip_prefix, split_at,
  scan_int, read_digits, scan_word, atoi, ℕ, ◌≤◌, All, map, true, not, ◌&&◌, some, none,
}
use eltex_practice.Broker.{
  Broker, Event, received, sigint, send, interrupt, remove_queue, register_subscriber,
  process_incoming_message, route_message, run_broker, register_publisher, handle_subscribe,
  handle_send, scan_request, nonempty, parse_send, shutdown_broker, notify_clients,
}
use eltex_practice.Broker.Registry.{IsValid}
use eltex_practice.Broker.Routing.{sent_to}
use eltex_practice.Broker.Protocol.{IsWord, empty_broker, run_broker-IsValid}
use eltex_practice.Broker.Refinement.{
  Request, subscribe, unsubscribe, publish, text_of, IsRequest, afterwards, Shows,
  run_broker-deliveries,
}
use eltex_practice.Broker.Programs.{interrupted, run_subscriber}
use eltex_practice.Broker.Startup.{
  Kernel, connect_to_queue, create_exclusive_queue, broker_program, broker_program-queue,
}
use eltex_practice.Broker.Leaving.{mentions, run_subscriber-run_broker}

abbrev news : Bytes
news = codes "news"

-- Process 7 has the topic `news`, process 8 another one.
abbrev two : Broker
two = record {
  subscribers =
      record { pid = 7; topic = codes "news" } ∷ record { pid = 8; topic = codes "art" } ∷ [];
  publishers = [];
}

abbrev script : List Event
script = received (codes "subscribe,7,news") ∷ received (codes "send,9,news,hi") ∷ sigint ∷ []

run_script :
    (run_broker script empty_broker).1
    ≡ send 7 (codes "[news]: hi") ∷ interrupt 7 ∷ interrupt 9 ∷ remove_queue ∷ []
unfolding run_broker process_incoming_message handle_subscribe handle_send register_subscriber
    register_publisher scan_request nonempty parse_send route_message shutdown_broker notify_clients
    str_eq strip_prefix scan_int read_digits scan_word split_at atoi
run_script = refl

two-IsValid : IsValid two
unfolding str_eq
two-IsValid = record {
  few_subscribers = omega arith;
  few_publishers = omega arith;
  short = omega arith;
  distinct = (refl, (refl, tt));
  distinct_publishers = tt;
}

news-IsWord : IsWord news
news-IsWord = ((refl, (refl, (refl, (refl, tt)))), omega arith, omega arith)

news-Free : Free b',' news
news-Free = (refl, (refl, (refl, (refl, tt))))

run_broker-IsValid_example : IsValid (run_broker script empty_broker).0
run_broker-IsValid_example = run_broker-IsValid script

-- Nobody has a topic, and there is room for this many subscriptions.
empty-Shows : (room : ℕ) → room ≤ 128 → Shows room empty_broker (λ p t. false)
unfolding run_broker
empty-Shows room h = record {
  valid = run_broker-IsValid [];
  fits = omega (arith, h);
  same_as = λ p t. refl;
}

abbrev requests : List Request
requests =
    publish 5 news (codes "a")
    ∷ subscribe 9 news
    ∷ publish 5 news (codes "b")
    ∷ unsubscribe 9 news
    ∷ publish 5 news (codes "c")
    ∷ []

requests-IsRequest : All IsRequest requests
requests-IsRequest = (
  (omega arith, omega arith, news-Free, omega arith),
  (
    (omega arith, news-IsWord),
    (
      (omega arith, omega arith, news-Free, omega arith),
      ((omega arith, news-IsWord), ((omega arith, omega arith, news-Free, omega arith), tt)),
    ),
  ),
)

run_broker-deliveries_example :
    (sent_to 9 (run_broker (map (λ r. received (text_of r)) requests) empty_broker).1
      ≡ codes "[news]: b" ∷ [])
    × Shows 0
        (run_broker (map (λ r. received (text_of r)) requests) empty_broker).0
        (afterwards requests (λ p t. false))
unfolding str_eq
run_broker-deliveries_example =
    run_broker-deliveries 9 requests requests-IsRequest (empty-Shows 1 (omega arith))

run_subscriber-run_broker_example :
    let run = run_subscriber 9 (news ∷ []) (true ∷ []) (interrupted ∷ []) (true ∷ []) in
    Shows 0
      (run_broker (map received run.sent) empty_broker).0
      (λ p t. false && not (mentions 9 (news ∷ []) p t))
run_subscriber-run_broker_example =
    run_subscriber-run_broker 9 (news ∷ []) [] [] (omega arith) (news-IsWord, tt)
      (empty-Shows 1 (omega arith))

abbrev quiet : Kernel
quiet = record { key = some 1; queue = none; fresh = some 4 }

broker_program-queue_example :
    let after = (broker_program quiet script).1 in
    (connect_to_queue after ≡ none)
    × (create_exclusive_queue after
        ≡ (some 4, record { key = some 1; queue = some 4; fresh = some 4 }))
broker_program-queue_example = broker_program-queue quiet 1 4 script refl refl refl
