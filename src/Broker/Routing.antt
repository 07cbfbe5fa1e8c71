-- ===== src/Broker/Routing.antt =====
-- Who gets a message, and what the end of the broker does.
use eltex_practice.Base.{
  ℕ, ◌≡◌, refl, Bool, false, List, [], ◌∷◌, arith, Bytes, str_eq_sound, ◌==◌, if◌then◌else◌, any,
  Bool-cases, inl, inr, subst,
}
use eltex_practice.Broker.{
  Subscriber, Broker, Effect, send, interrupt, remove_queue, is_entry, routed_text, route_loop,
  route_message,
}
use eltex_practice.Broker.Registry.{subscribed, Distinct}

-- The texts sent to one process, in order.
abbrev pub sent_to : ℕ → List Effect → List Bytes
sent_to p [] = []
sent_to p (send q text ∷ es) = if q == p then text ∷ sent_to p es else sent_to p es
sent_to p (interrupt q ∷ es) = sent_to p es
sent_to p (remove_queue ∷ es) = sent_to p es

abbrev once : Bool → Bytes → List Bytes
once b text = if b then text ∷ [] else []

sent_to-route_loop :
    (p : ℕ) (topic text : Bytes) (ss : List Subscriber)
    → Distinct ss
    → sent_to p (route_loop topic text ss) ≡ once (any (is_entry p topic) ss) text
unfolding route_loop
sent_to-route_loop p topic text [] d = refl
sent_to-route_loop p topic text (s ∷ ss) d =
    let ih = sent_to-route_loop p topic text ss d.1 in
    elim (Bool-cases (is_entry p topic s)) [
      | inl hit ↦
          (let e : s.pid ≡ p = ground arith in
            let f : s.topic ≡ topic = str_eq_sound s.topic topic (ground arith) in
            let gone : any (is_entry p topic) ss ≡ false =
              subst (λ q. any (is_entry q topic) ss ≡ false) e
                (subst (λ u. any (is_entry s.pid u) ss ≡ false) f d.0) in
            ground (arith))
      | inr miss ↦ ground (arith)
    ]

-- Over a table without repetition, a published text goes to every process that has the topic, once to
-- each, and to no other.
pub sent_to-route_message :
    (p : ℕ) (topic payload : Bytes) (b : Broker)
    → Distinct b.subscribers
    → sent_to p (route_message topic payload b)
      ≡ (if subscribed p topic b then routed_text topic payload ∷ [] else [])
unfolding route_message
sent_to-route_message p topic payload b d =
    sent_to-route_loop p topic (routed_text topic payload) b.subscribers d
