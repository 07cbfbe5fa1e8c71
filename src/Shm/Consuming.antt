-- ===== src/Shm/Consuming.antt =====
-- The consumer's rounds: which block is processed, what is found in it, and what is left.
use eltex_practice.Base.{
  ℕ, ◌+◌, ◌≤◌, ◌≡◌, refl, sym, subst, ◌∙◌, Bool, true, false, List, [], ◌∷◌, Option, none, some,
  arith, length, if◌then◌else◌, ◌==◌, ltb, Bool-cases, inl, inr, ◌⊎◌, ◌↔◌, All, any, take_of_le,
  get_or,
}
use eltex_practice.Shm.{
  Block, Shm, Found, at, all_processed, search, scan_vals, min_max, processed, finished, waiting,
  mark_processed, consume, poll_processed,
}
use eltex_practice.Shm.Chain.{
  Item, bytes, Seg, first_left, mark_first, link-mark_first, total-mark_first, Seg-mark,
}
use eltex_practice.Shm.Generating.{Holds, IsItem}
use eltex_practice.Shm.Find.{search-Holds}

abbrev pub holds_value : ℕ → List ℕ → Bool
holds_value k vs = any (λ v. v == k) vs

-- The least and the greatest of the elements, both among them.
pub record IsMinMax (vs : List ℕ) (m : ℕ × ℕ) : Type 0 where
  pub within : All (λ v. (m.0 ≤ v) × (v ≤ m.1)) vs
  pub least : holds_value m.0 vs ≡ true
  pub greatest : holds_value m.1 vs ≡ true

scan_vals_mono :
    (vs : List ℕ) (lo hi : ℕ) → ((scan_vals vs (lo, hi)).0 ≤ lo) × (hi ≤ (scan_vals vs (lo, hi)).1)
unfolding scan_vals
scan_vals_mono [] lo hi = omega arith
scan_vals_mono (v ∷ vs) lo hi =
    ground (arith, scan_vals_mono vs (if ltb v lo then v else lo) (if ltb hi v then v else hi))

scan_vals-within :
    (vs : List ℕ) (lo hi : ℕ)
    → All (λ v. ((scan_vals vs (lo, hi)).0 ≤ v) × (v ≤ (scan_vals vs (lo, hi)).1)) vs
unfolding scan_vals
scan_vals-within [] lo hi = tt
scan_vals-within (v ∷ vs) lo hi = (
  ground (arith, scan_vals_mono vs (if ltb v lo then v else lo) (if ltb hi v then v else hi)),
  scan_vals-within vs (if ltb v lo then v else lo) (if ltb hi v then v else hi),
)

scan_vals-attained :
    (vs : List ℕ) (lo hi : ℕ)
    → (((scan_vals vs (lo, hi)).0 ≡ lo) ⊎ (holds_value (scan_vals vs (lo, hi)).0 vs ≡ true))
      × (((scan_vals vs (lo, hi)).1 ≡ hi) ⊎ (holds_value (scan_vals vs (lo, hi)).1 vs ≡ true))
unfolding scan_vals
scan_vals-attained [] lo hi = (inl refl, inl refl)
scan_vals-attained (v ∷ vs) lo hi =
    ground (arith, scan_vals-attained vs (if ltb v lo then v else lo) (if ltb hi v then v else hi))

scan_vals-IsMinMax : (v : ℕ) (vs : List ℕ) → IsMinMax (v ∷ vs) (scan_vals (v ∷ vs) (v, v))
scan_vals-IsMinMax v vs = record {
  within = scan_vals-within (v ∷ vs) v v;
  least = ground (arith, scan_vals-attained (v ∷ vs) v v);
  greatest = ground (arith, scan_vals-attained (v ∷ vs) v v);
}

first_scan-IsMinMax :
    (vs : List ℕ) → 1 ≤ length vs → IsMinMax vs (scan_vals vs (get_or vs 0 0, get_or vs 0 0))
first_scan-IsMinMax [] h = absurd (omega arith)
first_scan-IsMinMax (v ∷ vs) h = scan_vals-IsMinMax v vs

min_max-IsMinMax :
    (b : Block) → b.num_elements ≡ length b.vals → 1 ≤ length b.vals → IsMinMax b.vals (min_max b)
unfolding min_max
min_max-IsMinMax b e h =
    subst (λ vs. IsMinMax b.vals (scan_vals vs (get_or b.vals 0 0, get_or b.vals 0 0)))
      (sym (take_of_le b.num_elements b.vals (omega arith))) (first_scan-IsMinMax b.vals h)

-- The first item that has elements left.
abbrev pub pick : List Item → Option Item
pick [] = none
pick (x ∷ xs) = if ltb 0 x.left then some x else pick xs

-- Of a picked item: where its block stands, and what that block holds.
record Picked (f : ℕ → Block) (o : ℕ) (xs : List Item) (x : Item) : Type 0 where
  place : ℕ
  found : first_left o xs ≡ at place
  count : (f place).num_elements ≡ length (f place).vals
  same : (f place).vals ≡ x.vals
  some_left : 1 ≤ length x.vals

pick-Picked :
    (f : ℕ → Block) (o : ℕ) (xs : List Item) (x : Item)
    → Seg f o xs
    → All IsItem xs
    → pick xs ≡ some x
    → Picked f o xs x
pick-Picked f o [] x s i e = ground arith
pick-Picked f o (y ∷ xs) x s i e = elim (Bool-cases (ltb 0 y.left)) [
  | inl t ↦
      (let p : y ≡ x = ground arith in
        subst (Picked f o (y ∷ xs)) p (record {
          place = o;
          found = rw t refl;
          count = ground (arith, s.0, i.0);
          same = ground (arith, s.0);
          some_left = i.0.0;
        }))
  | inr t ↦
      (let r : Picked f (o + bytes y) xs x =
          pick-Picked f (o + bytes y) xs x s.1 i.1 (ground arith) in
        record {
          place = r.place;
          found = rw t r.found;
          count = r.count;
          same = r.same;
          some_left = r.some_left;
        })
]

mark_first-items : (xs : List Item) → All IsItem xs → All IsItem (mark_first xs)
mark_first-items [] i = tt
mark_first-items (x ∷ xs) i = elim (Bool-cases (ltb 0 x.left)) [
  | inl t ↦ rw t ((i.0.0, inl refl), i.1)
  | inr t ↦ rw t (i.0, mark_first-items xs i.1)
]

pub mark_processed-Holds :
    (header o : ℕ) (s : Shm) (xs : List Item)
    → Holds header s xs
    → first_left header xs ≡ at o
    → Holds header (mark_processed o s) (mark_first xs)
unfolding mark_processed
mark_processed-Holds header o s xs v h = record {
  positive = v.positive;
  chained = Seg-mark s.block header o xs h v.chained;
  begins = v.begins ∙ sym (link-mark_first header xs);
  free = omega (arith, v.free, total-mark_first xs);
  fits = v.fits;
  small = v.small;
  items = mark_first-items xs v.items;
}

-- While some block of a chain in the segment has elements left, a round processes the first such block: it reports the least
-- and the greatest of that block's elements, and leaves the chain with that block marked and
-- nothing else changed.
pub consume-some :
    (header : ℕ) (s : Shm) (xs : List Item) (x : Item)
    → Holds header s xs
    → pick xs ≡ some x
    → (o : ℕ) × (m : ℕ × ℕ) × ((consume s).0 ≡ processed o m)
      × (first_left header xs ≡ at o)
      × IsMinMax x.vals m
      × Holds header (consume s).1 (mark_first xs)
unfolding consume
consume-some header s xs x v e =
    let r : Picked s.block header xs x = pick-Picked s.block header xs x v.chained v.items e in
    let f : search s ≡ at r.place = search-Holds header s xs v ∙ r.found in
    (
      r.place,
      min_max (s.block r.place),
      rw (f, consume),
      r.found,
      subst (λ vs. IsMinMax vs (min_max (s.block r.place))) r.same
          (min_max-IsMinMax (s.block r.place) r.count (rw r.same r.some_left)),
      rw (f, consume) (mark_processed-Holds header r.place s xs v r.found),
    )

pick-none : (o : ℕ) (xs : List Item) → pick xs ≡ none → first_left o xs ≡ all_processed
pick-none o [] e = refl
pick-none o (x ∷ xs) e = ground (arith, pick-none (o + bytes x) xs)

-- Once no block has elements left, a round changes nothing: the consumer leaves if the producer is
-- done, and waits otherwise.
pub consume-none :
    (header : ℕ) (s : Shm) (xs : List Item)
    → Holds header s xs
    → pick xs ≡ none
    → consume s ≡ ((if s.producer_done then finished else waiting), s)
unfolding consume
consume-none header s xs v e =
    let f : search s ≡ all_processed = search-Holds header s xs v ∙ pick-none header xs e in
    rw (f, consume)

-- Every element has been processed.
abbrev pub AllProcessed : List Item → Type 0
AllProcessed xs = All (λ x. x.left ≡ 0) xs

pick-AllProcessed : (xs : List Item) → AllProcessed xs → pick xs ≡ none
pick-AllProcessed [] h = refl
pick-AllProcessed (x ∷ xs) h = ground (arith, pick-AllProcessed xs h.1)

first_left-AllProcessed :
    (o : ℕ) (xs : List Item) → first_left o xs ≡ all_processed → AllProcessed xs
first_left-AllProcessed o [] h = tt
first_left-AllProcessed o (x ∷ xs) h =
    (ground arith, first_left-AllProcessed (o + bytes x) xs (ground arith))

-- Over a segment that holds a chain, the producer's wait ends exactly when no block has elements left.
pub poll_processed_iff :
    (header : ℕ) (s : Shm) (xs : List Item)
    → Holds header s xs
    → (poll_processed s ≡ true) ↔ AllProcessed xs
unfolding poll_processed
poll_processed_iff header s xs v = (
  (λ h. first_left-AllProcessed header xs (sym (search-Holds header s xs v) ∙ ended (search s) h)),
  (λ h.
      rw (
        search-Holds header s xs v ∙ pick-none header xs (pick-AllProcessed xs h),
        poll_processed,
      )),
)
  where
    ended : (r : Found) → (elim r [ all_processed ↦ true | _ ↦ false ]) ≡ true → r ≡ all_processed
    ended r h = ground arith
