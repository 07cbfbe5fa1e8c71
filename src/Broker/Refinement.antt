-- ===== src/Broker/Refinement.antt =====
-- The broker as its clients see it: a set of subscriptions, in which every publication goes to those that have
-- its topic. Tables, texts and parsing do not show.
use eltex_practice.Base.{
  ℕ, suc, ◌+◌, ◌≤◌, ◌<◌, ◌^◌, ◌≡◌, refl, ap, ap₂, ◌∙◌, Bool, not, ◌&&◌, ◌||◌, List, [], ◌∷◌, ◌++◌,
  map, arith, Bytes, length, length-append, if◌then◌else◌, Free, All, any,
}
use eltex_practice.Broker.{
  Broker, Effect, send, interrupt, remove_queue, received, max_subscribers, register_subscriber,
  unregister_subscriber, register_publisher, process_incoming_message, routed_text, run_broker,
  is_entry,
}
use eltex_practice.Broker.Registry.{
  subscribed, same, IsValid, register_cases, subscribed-register_subscriber, length-remove_entry,
  subscribed-unregister_subscriber, register_publisher-IsValid, register_subscriber-IsValid,
  unregister_subscriber-IsValid,
}
use eltex_practice.Broker.Routing.{sent_to, sent_to-route_message}
use eltex_practice.Broker.Clients.{subscribe_text, unsubscribe_text, publish_text}
use eltex_practice.Broker.Protocol.{
  IsWord, process-subscribe_text, process-unsubscribe_text, process-publish_text,
  register_publisher-subscribers,
}

-- What a client asks for.
pub data Request : Type 0 where
  subscribe unsubscribe : ℕ → Bytes → Request
  publish : ℕ → Bytes → Bytes → Request

-- The text in which it does.
abbrev pub text_of : Request → Bytes
text_of (subscribe pid topic) = subscribe_text pid topic
text_of (unsubscribe pid topic) = unsubscribe_text pid topic
text_of (publish pid topic line) = publish_text pid topic line

-- Who has which topic.
abbrev pub Subscriptions : Type 0
Subscriptions = ℕ → Bytes → Bool

-- What a request makes of the subscriptions.
abbrev pub after : Request → Subscriptions → Subscriptions
after (subscribe pid topic) has = λ p t. same p t pid topic || has p t
after (unsubscribe pid topic) has = λ p t. has p t && not (same p t pid topic)
after (publish pid topic line) has = has

-- What a process gets of a request.
abbrev pub delivery : ℕ → Request → Subscriptions → List Bytes
delivery p (subscribe pid topic) has = []
delivery p (unsubscribe pid topic) has = []
delivery p (publish pid topic line) has = if has p topic then routed_text topic line ∷ [] else []

-- What it gets of all of them.
abbrev pub deliveries : ℕ → List Request → Subscriptions → List Bytes
deliveries p [] has = []
deliveries p (r ∷ rs) has = delivery p r has ++ deliveries p rs (after r has)

-- What they leave of the subscriptions.
abbrev pub afterwards : List Request → Subscriptions → Subscriptions
afterwards [] has = has
afterwards (r ∷ rs) has = afterwards rs (after r has)

-- A request that its text can carry.
abbrev pub IsRequest : Request → Type 0
IsRequest (subscribe pid topic) = (pid < 2 ^ 31) × IsWord topic
IsRequest (unsubscribe pid topic) = (pid < 2 ^ 31) × IsWord topic
IsRequest (publish pid topic line) =
    (pid < 2 ^ 31) × (length topic ≤ 63) × Free b',' topic × (length line ≤ 254)

-- The entries that the requests can add.
abbrev pub added : List Request → ℕ
added [] = 0
added (subscribe pid topic ∷ rs) = suc (added rs)
added (unsubscribe pid topic ∷ rs) = added rs
added (publish pid topic line ∷ rs) = added rs

sent_to-append : (p : ℕ) (es fs : List Effect) → sent_to p (es ++ fs) ≡ sent_to p es ++ sent_to p fs
sent_to-append p [] fs = refl
sent_to-append p (send q text ∷ es) fs = ground (arith, sent_to-append p es fs)
sent_to-append p (interrupt q ∷ es) fs = sent_to-append p es fs
sent_to-append p (remove_queue ∷ es) fs = sent_to-append p es fs

length-register_subscriber :
    (pid : ℕ) (topic : Bytes) (b : Broker)
    → length (register_subscriber pid topic b).subscribers ≤ length b.subscribers + 1
length-register_subscriber pid topic b =
    register_cases (λ c. length c.subscribers ≤ length b.subscribers + 1) pid topic b
      (λ _. omega arith) (λ _. omega arith)
      (λ _ _. omega (arith, length-append b.subscribers (_ ∷ [])))

length-unregister_subscriber :
    (pid : ℕ) (topic : Bytes) (b : Broker)
    → length (unregister_subscriber pid topic b).subscribers ≤ length b.subscribers
unfolding unregister_subscriber
length-unregister_subscriber pid topic b = length-remove_entry pid topic b.subscribers

-- The table of the broker shows these subscriptions, and is valid with room for so many more.
pub record Shows (room : ℕ) (b : Broker) (has : Subscriptions) : Type 0 where
  pub valid : IsValid b
  pub fits : length b.subscribers + room ≤ max_subscribers
  pub same_as : (p : ℕ) (t : Bytes) → subscribed p t b ≡ has p t

-- One request: the table shows what the request makes of the subscriptions, and every process gets what it
-- is to get.
record Served (p : ℕ) (room : ℕ) (r : Request) (has : Subscriptions) (q : Broker × List Effect)
    : Type 0 where
  shows : Shows room q.0 (after r has)
  sent : sent_to p q.1 ≡ delivery p r has

serve_request :
    (p : ℕ) (r : Request) (rs : List Request) {b : Broker} {has : Subscriptions}
    → IsRequest r
    → Shows (added (r ∷ rs)) b has
    → Served p (added rs) r has (process_incoming_message (text_of r) b)
serve_request p (subscribe pid topic) rs {b} {has} (small, w) v =
    rw (process-subscribe_text pid topic b small w) (record {
      shows = record {
        valid = register_subscriber-IsValid pid topic w.1 v.valid;
        fits = omega (arith, length-register_subscriber pid topic b, v.fits);
        same_as = λ q t.
            subscribed-register_subscriber q pid t topic b (omega (arith, v.fits)) w.1
            ∙ ap (λ c. same q t pid topic || c) (v.same_as q t);
      };
      sent = refl;
    })
serve_request p (unsubscribe pid topic) rs {b} {has} (small, w) v =
    rw (process-unsubscribe_text pid topic b small w) (record {
      shows = record {
        valid = unregister_subscriber-IsValid pid topic v.valid;
        fits = omega (arith, length-unregister_subscriber pid topic b, v.fits);
        same_as = λ q t.
            subscribed-unregister_subscriber q pid t topic b v.valid.distinct
            ∙ ap (λ c. c && not (same q t pid topic)) (v.same_as q t);
      };
      sent = refl;
    })
serve_request p (publish pid topic line) rs {b} {has} (small, short, free, few) v =
    rw (process-publish_text pid topic line b small free short few) (
      let same_table = register_publisher-subscribers pid b in
      let valid = register_publisher-IsValid pid v.valid in
      let kept : (q : ℕ) (t : Bytes) → subscribed q t (register_publisher pid b) ≡ has q t =
        λ q t. ap (any (is_entry q t)) same_table ∙ v.same_as q t in
      record {
        shows = record {
          valid = valid;
          fits = omega (arith, ap length same_table, v.fits);
          same_as = kept;
        };
        sent =
            sent_to-route_message p topic line (register_publisher pid b) valid.distinct
            ∙ ap (λ c. if c then routed_text topic line ∷ [] else []) (kept p topic);
      })

-- The broker refines the set of subscriptions: while it is fed with the texts of requests, every process gets,
-- in their order, exactly the publications on the topics that it has at the time, and at the end the table
-- shows exactly the subscriptions that are left. The tables are valid and have room for the subscriptions to
-- come, pids are below 2^31, topics are words of at most 63 bytes, without a comma where something
-- is published, and lines have at most 254 bytes.
pub run_broker-deliveries :
    (p : ℕ) (rs : List Request) {b : Broker} {has : Subscriptions}
    → All IsRequest rs
    → Shows (added rs) b has
    → (sent_to p (run_broker (map (λ r. received (text_of r)) rs) b).1 ≡ deliveries p rs has)
      × Shows 0 (run_broker (map (λ r. received (text_of r)) rs) b).0 (afterwards rs has)
unfolding run_broker
run_broker-deliveries p [] h v = (refl, v)
run_broker-deliveries p (r ∷ rs) {b} {has} h v =
    let one = serve_request p r rs h.0 v in
    let (sent, shows) = run_broker-deliveries p rs h.1 one.shows in
    (sent_to-append p (process_incoming_message (text_of r) b).1 _ ∙ ap₂ ◌++◌ one.sent sent, shows)
