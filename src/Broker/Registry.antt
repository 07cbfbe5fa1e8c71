-- ===== src/Broker/Registry.antt =====
-- The two tables of the broker: what each operation changes, and the invariant.
use eltex_practice.Base.{
  ℕ, ◌≤◌, ◌<◌, ◌≡◌, refl, ap₂, Bool, true, false, not, ◌&&◌, ◌||◌, List, [], ◌∷◌, ◌++◌, arith,
  Bytes, str_eq, str_eq_sound, str_eq_sym, length, length-append, take, take_of_le, leb, ◌==◌, any,
  any-append, All, All-append, Bool-cases, inl, inr,
}
use eltex_practice.Broker.{
  Subscriber, Broker, max_subscribers, max_publishers, is_entry, register_subscriber, remove_entry,
  unregister_subscriber, register_publisher,
}

-- The process has a subscription to the topic.
abbrev pub subscribed : ℕ → Bytes → Broker → Bool
subscribed pid topic b = any (is_entry pid topic) b.subscribers

-- The two names of an entry are the two given ones.
abbrev pub same : ℕ → Bytes → ℕ → Bytes → Bool
same p t pid topic = (pid == p) && str_eq topic t

same_sound :
    (p : ℕ) (t : Bytes) (pid : ℕ) (topic : Bytes)
    → same p t pid topic ≡ true
    → (pid ≡ p) × (topic ≡ t)
same_sound p t pid topic h = (ground arith, str_eq_sound topic t (ground arith))

any_of_same :
    (p : ℕ) (t : Bytes) (pid : ℕ) (topic : Bytes) (ss : List Subscriber)
    → same p t pid topic ≡ true
    → any (is_entry pid topic) ss ≡ any (is_entry p t) ss
any_of_same p t pid topic ss h =
    let (e, f) = same_sound p t pid topic h in ap₂ (λ q u. any (is_entry q u) ss) e f

-- The ways through `register_subscriber`: nothing changes, or a new entry is appended.
pub register_cases {ℓ} :
    (P : Broker → Type ℓ) (pid : ℕ) (topic : Bytes) (b : Broker)
    → (any (is_entry pid topic) b.subscribers ≡ true → P b)
    → (max_subscribers ≤ length b.subscribers → P b)
    → (length b.subscribers < max_subscribers
        → any (is_entry pid topic) b.subscribers ≡ false
        → P (record b {
          subscribers = b.subscribers ++ record { pid = pid; topic = take 63 topic } ∷ [];
        }))
    → P (register_subscriber pid topic b)
unfolding register_subscriber
register_cases P pid topic b old full new =
    elim (Bool-cases (leb max_subscribers (length b.subscribers))) [
      | inl f ↦ rw (f, register_subscriber) (full (ground arith))
      | inr r ↦ elim (Bool-cases (any (is_entry pid topic) b.subscribers)) [
        | inl e ↦ rw (r, e, register_subscriber) (old e)
        | inr e ↦ rw (r, e, register_subscriber) (new (ground arith) e)
      ]
    ]

-- A registration adds exactly the one subscription, while there is room.
pub subscribed-register_subscriber :
    (p pid : ℕ) (t topic : Bytes) (b : Broker)
    → length b.subscribers < max_subscribers
    → length topic ≤ 63
    → subscribed p t (register_subscriber pid topic b) ≡ (same p t pid topic || subscribed p t b)
subscribed-register_subscriber p pid t topic b room short =
    register_cases (λ c. subscribed p t c ≡ (same p t pid topic || subscribed p t b)) pid topic b
      (λ old. ground (arith, any_of_same p t pid topic b.subscribers))
      (λ full. absurd (omega arith))
      (λ _ new. rw (take_of_le 63 topic short) (
        ground (
          arith,
          any-append (is_entry p t) b.subscribers (record { pid = pid; topic = topic } ∷ []),
        )))

abbrev pub Distinct : List Subscriber → Type 0
Distinct [] = Unit {0}
Distinct (s ∷ ss) = (any (is_entry s.pid s.topic) ss ≡ false) × Distinct ss

abbrev pub DistinctPids : List ℕ → Type 0
DistinctPids [] = Unit {0}
DistinctPids (p ∷ ps) = (any (λ q. q == p) ps ≡ false) × DistinctPids ps

-- Both tables are within their arrays, no entry stands twice, and every topic has its terminator.
pub record IsValid (b : Broker) : Type 0 where
  pub few_subscribers : length b.subscribers ≤ max_subscribers
  pub few_publishers : length b.publishers ≤ max_publishers
  pub short : All (λ s. length s.topic ≤ 63) b.subscribers
  pub distinct : Distinct b.subscribers
  pub distinct_publishers : DistinctPids b.publishers

Distinct-append :
    (ss : List Subscriber) (x : Subscriber)
    → Distinct ss
    → any (is_entry x.pid x.topic) ss ≡ false
    → Distinct (ss ++ x ∷ [])
Distinct-append [] x d h = (refl, tt)
Distinct-append (s ∷ ss) x d h = (
  ground (arith, any-append (is_entry s.pid s.topic) ss (x ∷ []), str_eq_sym s.topic x.topic),
  Distinct-append ss x d.1 (ground arith),
)

DistinctPids-append :
    (ps : List ℕ) (x : ℕ)
    → DistinctPids ps
    → any (λ q. q == x) ps ≡ false
    → DistinctPids (ps ++ x ∷ [])
DistinctPids-append [] x d h = (refl, tt)
DistinctPids-append (p ∷ ps) x d h = (
  ground (arith, any-append (λ q. q == p) ps (x ∷ [])),
  DistinctPids-append ps x d.1 (ground arith),
)

pub register_subscriber-IsValid :
    (pid : ℕ) (topic : Bytes) {b : Broker}
    → length topic ≤ 63
    → IsValid b
    → IsValid (register_subscriber pid topic b)
register_subscriber-IsValid pid topic {b} h v =
    register_cases IsValid pid topic b (λ _. v) (λ _. v)
      λ room new. rw (take_of_le 63 topic h) (record {
        few_subscribers = omega (arith, length-append b.subscribers (x ∷ []));
        few_publishers = v.few_publishers;
        short = All-append (λ s. length s.topic ≤ 63) b.subscribers (x ∷ []) v.short (h, tt);
        distinct = Distinct-append b.subscribers x v.distinct new;
        distinct_publishers = v.distinct_publishers;
      })
  where
    x : Subscriber
    x = record { pid = pid; topic = topic }

pub register_publisher-IsValid :
    (pid : ℕ) {b : Broker} → IsValid b → IsValid (register_publisher pid b)
unfolding register_publisher
register_publisher-IsValid pid {b} v = ground (
  arith,
  DistinctPids-append b.publishers pid v.distinct_publishers,
  length-append b.publishers (pid ∷ []),
)

-- The entry that the loop stops at is the only one of its kind.
any-remove_entry_first :
    (p : ℕ) (t : Bytes) (pid : ℕ) (topic : Bytes) (s : Subscriber) (ss : List Subscriber)
    → any (is_entry s.pid s.topic) ss ≡ false
    → is_entry pid topic s ≡ true
    → any (is_entry p t) ss
      ≡ ((is_entry p t s || any (is_entry p t) ss) && not (same p t pid topic))
any-remove_entry_first p t pid topic s ss d hit =
    let (e, f) = same_sound pid topic s.pid s.topic hit in
    rw (← e, ← f) (ground (arith, any_of_same p t s.pid s.topic ss))

-- An entry that is passed over is not the one that was asked for.
miss_ne :
    (p : ℕ) (t : Bytes) (pid : ℕ) (topic : Bytes) (s : Subscriber)
    → is_entry pid topic s ≡ false
    → is_entry p t s ≡ true
    → same p t pid topic ≡ false
miss_ne p t pid topic s miss hit =
    let (e, f) = same_sound p t s.pid s.topic hit in
    rw (← e, ← f) (ground (arith, str_eq_sym s.topic topic))

any-remove_entry :
    (p : ℕ) (t : Bytes) (pid : ℕ) (topic : Bytes) (ss : List Subscriber)
    → Distinct ss
    → any (is_entry p t) (remove_entry pid topic ss)
      ≡ (any (is_entry p t) ss && not (same p t pid topic))
unfolding remove_entry
any-remove_entry p t pid topic [] d = refl
any-remove_entry p t pid topic (s ∷ ss) d = elim (Bool-cases (is_entry pid topic s)) [
  | inl hit ↦ ground (
    arith,
    any_of_same p t s.pid s.topic ss,
    str_eq_sound s.topic topic,
    any-remove_entry_first p t pid topic s ss,
  )
  | inr miss ↦ ground (arith, any-remove_entry p t pid topic ss d.1, miss_ne p t pid topic s)
]

-- From a table without repetition, a cancellation removes exactly the one subscription.
pub subscribed-unregister_subscriber :
    (p pid : ℕ) (t topic : Bytes) (b : Broker)
    → Distinct b.subscribers
    → subscribed p t (unregister_subscriber pid topic b)
      ≡ (subscribed p t b && not (same p t pid topic))
unfolding unregister_subscriber
subscribed-unregister_subscriber p pid t topic b d = any-remove_entry p t pid topic b.subscribers d

pub length-remove_entry :
    (pid : ℕ) (topic : Bytes) (ss : List Subscriber)
    → length (remove_entry pid topic ss) ≤ length ss
unfolding remove_entry
length-remove_entry pid topic [] = omega arith
length-remove_entry pid topic (s ∷ ss) = ground (arith, length-remove_entry pid topic ss)

any-remove_entry-false :
    (p : Subscriber → Bool) (pid : ℕ) (topic : Bytes) (ss : List Subscriber)
    → any p ss ≡ false
    → any p (remove_entry pid topic ss) ≡ false
unfolding remove_entry
any-remove_entry-false p pid topic [] h = refl
any-remove_entry-false p pid topic (s ∷ ss) h =
    ground (arith, any-remove_entry-false p pid topic ss)

remove_entry-Distinct :
    (pid : ℕ) (topic : Bytes) (ss : List Subscriber)
    → Distinct ss
    → Distinct (remove_entry pid topic ss)
unfolding remove_entry
remove_entry-Distinct pid topic [] d = tt
remove_entry-Distinct pid topic (s ∷ ss) d = ground (
  arith,
  remove_entry-Distinct pid topic ss d.1,
  any-remove_entry-false (is_entry s.pid s.topic) pid topic ss d.0,
)

remove_entry-short :
    (pid : ℕ) (topic : Bytes) (ss : List Subscriber)
    → All (λ s. length s.topic ≤ 63) ss
    → All (λ s. length s.topic ≤ 63) (remove_entry pid topic ss)
unfolding remove_entry
remove_entry-short pid topic [] d = tt
remove_entry-short pid topic (s ∷ ss) d = ground (arith, remove_entry-short pid topic ss d.1)

pub unregister_subscriber-IsValid :
    (pid : ℕ) (topic : Bytes) {b : Broker} → IsValid b → IsValid (unregister_subscriber pid topic b)
unfolding unregister_subscriber
unregister_subscriber-IsValid pid topic {b} v = record {
  few_subscribers = omega (arith, length-remove_entry pid topic b.subscribers, v.few_subscribers);
  few_publishers = v.few_publishers;
  short = remove_entry-short pid topic b.subscribers v.short;
  distinct = remove_entry-Distinct pid topic b.subscribers v.distinct;
  distinct_publishers = v.distinct_publishers;
}
