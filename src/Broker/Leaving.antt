-- ===== src/Broker/Leaving.antt =====
-- What a subscriber leaves at the broker: the requests of its whole run, in the order of the queue.
use eltex_practice.Base.{
  ℕ, suc, ◌<◌, ◌^◌, ◌≡◌, refl, ap, sym, subst, ◌∙◌, true, not, ◌&&◌, ◌||◌, List, [], ◌∷◌, ◌++◌, map,
  arith, Bytes, str_eq, any, replicate, length, All, All-append, ◌==◌,
}
use eltex_practice.Broker.{Broker, received, run_broker}
use eltex_practice.Broker.Clients.{subscribe_text, unsubscribe_text}
use eltex_practice.Broker.Protocol.{IsWord}
use eltex_practice.Broker.Programs.{
  Received, message, interrupted, run_subscriber, run_subscriber-interrupted,
}
use eltex_practice.Broker.Refinement.{
  Request, subscribe, unsubscribe, text_of, Subscriptions, after, afterwards, IsRequest, added,
  Shows, run_broker-deliveries,
}

-- The requests of a subscriber that comes and goes.
abbrev pub visit : ℕ → List Bytes → List Request
visit pid topics = map (subscribe pid) topics ++ map (unsubscribe pid) topics

-- This process and one of the topics.
abbrev pub mentions : ℕ → List Bytes → Subscriptions
mentions pid topics p t = (pid == p) && any (λ u. str_eq u t) topics

afterwards-append :
    (xs ys : List Request) (has : Subscriptions)
    → afterwards (xs ++ ys) has ≡ afterwards ys (afterwards xs has)
afterwards-append [] ys has = refl
afterwards-append (x ∷ xs) ys has = afterwards-append xs ys (after x has)

afterwards_subscribe :
    (pid p : ℕ) (t : Bytes) (topics : List Bytes) (has : Subscriptions)
    → afterwards (map (subscribe pid) topics) has p t ≡ (mentions pid topics p t || has p t)
afterwards_subscribe pid p t [] has = ground arith
afterwards_subscribe pid p t (u ∷ topics) has =
    ground (arith, afterwards_subscribe pid p t topics (after (subscribe pid u) has))

afterwards_unsubscribe :
    (pid p : ℕ) (t : Bytes) (topics : List Bytes) (has : Subscriptions)
    → afterwards (map (unsubscribe pid) topics) has p t ≡ (has p t && not (mentions pid topics p t))
afterwards_unsubscribe pid p t [] has = ground arith
afterwards_unsubscribe pid p t (u ∷ topics) has =
    ground (arith, afterwards_unsubscribe pid p t topics (after (unsubscribe pid u) has))

afterwards-visit :
    (pid p : ℕ) (t : Bytes) (topics : List Bytes) (has : Subscriptions)
    → afterwards (visit pid topics) has p t ≡ (has p t && not (mentions pid topics p t))
afterwards-visit pid p t topics has =
    let joined = afterwards (map (subscribe pid) topics) has in
    ap (λ s. s p t)
      (afterwards-append (map (subscribe pid) topics) (map (unsubscribe pid) topics) has)
    ∙ afterwards_unsubscribe pid p t topics joined
    ∙ (let e = afterwards_subscribe pid p t topics has in ground arith)

added-visit : (pid : ℕ) (topics : List Bytes) → added (visit pid topics) ≡ length topics
added-visit pid topics = counts topics topics
  where
    leaves : (us : List Bytes) → added (map (unsubscribe pid) us) ≡ 0
    leaves [] = refl
    leaves (u ∷ us) = leaves us

    counts :
        (ts us : List Bytes)
        → added (map (subscribe pid) ts ++ map (unsubscribe pid) us) ≡ length ts
    counts [] us = leaves us
    counts (u ∷ ts) us = ap suc (counts ts us)

visit-requests :
    (pid : ℕ) (topics : List Bytes)
    → pid < 2 ^ 31
    → All IsWord topics
    → All IsRequest (visit pid topics)
visit-requests pid topics small w =
    All-append IsRequest (map (subscribe pid) topics) (map (unsubscribe pid) topics) (come topics w)
      (go topics w)
  where
    come : (ts : List Bytes) → All IsWord ts → All IsRequest (map (subscribe pid) ts)
    come [] h = tt
    come (u ∷ ts) h = ((small, h.0), come ts h.1)

    go : (ts : List Bytes) → All IsWord ts → All IsRequest (map (unsubscribe pid) ts)
    go [] h = tt
    go (u ∷ ts) h = ((small, h.0), go ts h.1)

visit-texts :
    (pid : ℕ) (topics : List Bytes)
    → map (λ r. received (text_of r)) (visit pid topics)
      ≡ map received (map (subscribe_text pid) topics ++ map (unsubscribe_text pid) topics)
visit-texts pid topics = come topics topics
  where
    go :
        (us : List Bytes)
        → map (λ r. received (text_of r)) (map (unsubscribe pid) us)
          ≡ map received (map (unsubscribe_text pid) us)
    go [] = refl
    go (u ∷ us) = ap (λ t. received (unsubscribe_text pid u) ∷ t) (go us)

    come :
        (ts us : List Bytes)
        → map (λ r. received (text_of r)) (map (subscribe pid) ts ++ map (unsubscribe pid) us)
          ≡ map received (map (subscribe_text pid) ts ++ map (unsubscribe_text pid) us)
    come [] us = go us
    come (u ∷ ts) us = ap (λ t. received (subscribe_text pid u) ∷ t) (come ts us)

-- What a subscriber that the signal ends has sent makes the broker forget it: of its topics nothing is left under
-- its pid, also where somebody had asked for them before, and every other subscription stays. The
-- queue takes its messages, the pid is below 2^31, the topics are words of at most 63 bytes, and the valid tables
-- have room for them.
pub run_subscriber-run_broker :
    (pid : ℕ) (topics texts : List Bytes) (more : List Received) {b : Broker} {has : Subscriptions}
    → pid < 2 ^ 31
    → All IsWord topics
    → Shows (length topics) b has
    → let oks = replicate (length topics) true in
      let run = run_subscriber pid topics oks (map message texts ++ interrupted ∷ more) oks in
      Shows 0
        (run_broker (map received run.sent) b).0
        (λ p t. has p t && not (mentions pid topics p t))
run_subscriber-run_broker pid topics texts more {b} {has} small w v =
    let served =
      (run_broker-deliveries pid (visit pid topics) (visit-requests pid topics small w)
        (subst (λ k. Shows k b has) (sym (added-visit pid topics)) v)).1 in
    let table : Subscriptions → Type 0 = λ h.
      Shows 0
        (run_broker
          (map received (map (subscribe_text pid) topics ++ map (unsubscribe_text pid) topics)) b).0
        h in
    rw (run_subscriber-interrupted pid topics texts more) (
      subst table (λ i p t. afterwards-visit pid p t topics has i)
        (subst (λ es. Shows 0 (run_broker es b).0 (afterwards (visit pid topics) has))
          (visit-texts pid topics) served))
