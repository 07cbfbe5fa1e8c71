-- ===== src/Shm/Run.antt =====
-- One producer and any number of consumers over the segment: their critical sections in any order.
use eltex_practice.Base.{
  ℕ, suc, ◌+◌, ◌%◌, ◌<◌, ◌≡◌, refl, ap, ap₂, sym, subst, ◌∙◌, append-nil, append_assoc, Bool, true,
  false, List, [], ◌∷◌, ◌++◌, none, some, arith, if◌then◌else◌, ltb, Bool-cases, Option-cases, inl,
  inr,
}
use native.Mathlib.Decide.{dec_le}
use eltex_practice.Shm.{
  Shm, Producer, generate, block_bytes, Round, processed, finished, waiting, stuck, consume,
  mark_processed, link_block, at,
}
use eltex_practice.Shm.Chain.{Item, bytes, total, last_from, mark_first, first_left}
use eltex_practice.Shm.Generating.{Ready, drawn, generate-room, generate-full}
use eltex_practice.Shm.Consuming.{pick, consume-some, consume-none}

-- `generated` lists the offsets where the producer has put its blocks, and `rounds` the offsets of the blocks
-- that consumers have processed, each in order of time.
pub record System : Type 0 where
  pub prod : Producer
  pub ended : Bool
  pub generated : List ℕ
  pub rounds : List ℕ

abbrev places : Round → List ℕ
places (processed o m) = o ∷ []
places finished = []
places waiting = []
places stuck = []

abbrev pub produce_step : (Shm → ℕ) → ℕ → (ℕ → ℕ) → System → System
produce_step limit r rand s =
    let (stop, p) = generate limit r rand s.prod in
    record {
      prod = p;
      ended = stop;
      generated = if stop then s.generated else s.generated ++ s.prod.mem.free_offset ∷ [];
      rounds = s.rounds;
    }

abbrev pub consume_step : System → System
consume_step s =
    let (round, mem) = consume s.prod.mem in
    record s { prod = record (s.prod) { mem = mem }; rounds = s.rounds ++ places round }

-- The producer takes its turn until its loop has ended; a consumer may take one at any time.
pub data Step (limit : Shm → ℕ) (s : System) : System → Type 0 where
  produces : (r : ℕ) (rand : ℕ → ℕ) → s.ended ≡ false → Step limit s (produce_step limit r rand s)
  consumes : Step limit s (consume_step s)

pub data Reach (limit : Shm → ℕ) (s : System) : System → Type 0 where
  here : Reach limit s s
  next : {t u : System} → Reach limit s t → Step limit t u → Reach limit s u

abbrev pub live : List Item → ℕ
live [] = 0
live (x ∷ xs) = if ltb 0 x.left then suc (live xs) else live xs

-- The offsets of a chain's blocks, and of those with elements left.
abbrev pub offsets : ℕ → List Item → List ℕ
offsets o [] = []
offsets o (x ∷ xs) = o ∷ offsets (o + bytes x) xs

abbrev pub left_at : ℕ → List Item → List ℕ
left_at o [] = []
left_at o (x ∷ xs) = if ltb 0 x.left then o ∷ left_at (o + bytes x) xs else left_at (o + bytes x) xs

abbrev pub Rising : List ℕ → Type 0
Rising [] = Unit {0}
Rising (p ∷ []) = Unit {0}
Rising (p ∷ q ∷ ps) = (p < q) × Rising (q ∷ ps)

-- The segment holds a chain of all the generated blocks, and the blocks processed, with those that have
-- elements left behind them, are these blocks.
pub record Inv (header : ℕ) (limit : Shm → ℕ) (s : System) : Type 0 where
  pub chain : List Item
  pub ready : Ready header s.prod chain
  pub limited : limit s.prod.mem ≡ s.prod.mem.shm_size
  pub done : s.ended ≡ s.prod.mem.producer_done
  pub all_there : offsets header chain ≡ s.generated
  pub balanced : s.rounds ++ left_at header chain ≡ s.generated

offsets-append :
    (o : ℕ) (xs : List Item) (x : Item)
    → offsets o (xs ++ x ∷ []) ≡ offsets o xs ++ (o + total xs) ∷ []
offsets-append o [] x = ap (λ k. k ∷ []) (omega arith)
offsets-append o (y ∷ xs) x =
    ap (◌∷◌ o) (
      offsets-append (o + bytes y) xs x
      ∙ ap (λ k. offsets (o + bytes y) xs ++ k ∷ []) (omega arith))

offsets-mark_first : (o : ℕ) (xs : List Item) → offsets o (mark_first xs) ≡ offsets o xs
offsets-mark_first o [] = refl
offsets-mark_first o (x ∷ xs) = elim (Bool-cases (ltb 0 x.left)) [
  | inl t ↦ rw t refl
  | inr t ↦ rw t (ap (◌∷◌ o) (offsets-mark_first (o + bytes x) xs))
]

offsets-Rising : (o : ℕ) (xs : List Item) → Rising (offsets o xs)
offsets-Rising o [] = tt
offsets-Rising o (x ∷ []) = tt
offsets-Rising o (x ∷ y ∷ xs) = (omega arith, offsets-Rising (o + bytes x) (y ∷ xs))

left_at-append :
    (o : ℕ) (xs : List Item) (x : Item)
    → 0 < x.left
    → left_at o (xs ++ x ∷ []) ≡ left_at o xs ++ (o + total xs) ∷ []
left_at-append o [] x h =
    let some_left : ltb 0 x.left ≡ true = ground arith in
    rw some_left (ap (λ k. k ∷ []) (omega arith))
left_at-append o (y ∷ xs) x h =
    let rest : left_at (o + bytes y) (xs ++ x ∷ [])
        ≡ left_at (o + bytes y) xs ++ (o + (bytes y + total xs)) ∷ [] =
      left_at-append (o + bytes y) xs x h
      ∙ ap (λ k. left_at (o + bytes y) xs ++ k ∷ []) (omega arith) in
    elim (Bool-cases (ltb 0 y.left)) [ inl t ↦ rw t (ap (◌∷◌ o) rest) | inr t ↦ rw t rest ]

-- The block that a round processes is the first of those with elements left.
left_at-mark_first :
    (o p : ℕ) (xs : List Item)
    → first_left o xs ≡ at p
    → left_at o xs ≡ p ∷ left_at o (mark_first xs)
left_at-mark_first o p [] e = ground arith
left_at-mark_first o p (x ∷ xs) e = elim (Bool-cases (ltb 0 x.left)) [
  | inl t ↦
      (let same : o ≡ p = at_inj o p (rw t at e) in
        rw t (ap (λ k. k ∷ left_at (o + bytes x) xs) same))
  | inr t ↦ rw t (rw t (left_at-mark_first (o + bytes x) p xs (rw t at e)))
]
  where
    at_inj : (a b : ℕ) → at a ≡ at b → a ≡ b
    at_inj a b e = cc

left_at_of_pick-none : (o : ℕ) (xs : List Item) → pick xs ≡ none → left_at o xs ≡ []
left_at_of_pick-none o [] e = refl
left_at_of_pick-none o (x ∷ xs) e = elim (Bool-cases (ltb 0 x.left)) [
  | inl t ↦ ground arith
  | inr t ↦ rw t (left_at_of_pick-none (o + bytes x) xs (rw t at e))
]

pub live-mark_first :
    (xs : List Item) (x : Item) → pick xs ≡ some x → live (mark_first xs) + 1 ≡ live xs
live-mark_first [] x e = ground arith
live-mark_first (y ∷ xs) x e = ground (arith, live-mark_first xs x)

pick-none_of_live : (xs : List Item) → live xs ≡ 0 → pick xs ≡ none
pick-none_of_live [] e = refl
pick-none_of_live (y ∷ xs) e = ground (arith, pick-none_of_live xs)

last_from-mark_first : (o : ℕ) (xs : List Item) → last_from o (mark_first xs) ≡ last_from o xs
last_from-mark_first o [] = refl
last_from-mark_first o (x ∷ []) = ground arith
last_from-mark_first o (x ∷ y ∷ xs) =
    let ih : last_from (o + bytes x) (mark_first (y ∷ xs)) ≡ last_from (o + bytes x) (y ∷ xs) =
      last_from-mark_first (o + bytes x) (y ∷ xs) in
    elim (Bool-cases (ltb 0 x.left)) [
      | inl t ↦ rw t
      | inr t ↦ elim (Bool-cases (ltb 0 y.left)) [
        | inl u ↦ rw (t, u) (rw u at ih)
        | inr u ↦ rw (t, u) (rw u at ih)
      ]
    ]

processed-ne-finished : (o : ℕ) (m : ℕ × ℕ) → processed o m ≡ finished → ⊥
processed-ne-finished o m e = cc

consume-shm_size : (m : Shm) → (consume m).1.shm_size ≡ m.shm_size
unfolding consume mark_processed
consume-shm_size m = ground arith

pub consume-done : (m : Shm) → (consume m).1.producer_done ≡ m.producer_done
unfolding consume mark_processed
consume-done m = ground arith

pub generate-shm_size :
    (limit : Shm → ℕ) (r : ℕ) (rand : ℕ → ℕ) (p : Producer)
    → (generate limit r rand p).1.mem.shm_size ≡ p.mem.shm_size
unfolding generate link_block
generate-shm_size limit r rand p = ground arith

generate-done :
    (limit : Shm → ℕ) (r : ℕ) (rand : ℕ → ℕ) (p : Producer)
    → (generate limit r rand p).0 ≡ false
    → (generate limit r rand p).1.mem.producer_done ≡ p.mem.producer_done
unfolding generate link_block
generate-done limit r rand p h = ground arith

places_idle : (b : Bool) → places (if b then finished else waiting) ≡ []
places_idle true = refl
places_idle false = refl

module _ (header : ℕ) (limit : Shm → ℕ)
    (size_only : (m n : Shm) → m.shm_size ≡ n.shm_size → limit m ≡ limit n) where
  consume-Inv : {s : System} → Inv header limit s → Inv header limit (consume_step s)
  consume-Inv {s} v = elim (Option-cases (pick v.chain)) [
    | inl none_left ↦
        (let e : consume s.prod.mem
              ≡ ((if s.prod.mem.producer_done then finished else waiting), s.prod.mem) =
            consume-none header s.prod.mem v.chain v.ready.holds none_left in
          rw e (record {
            chain = v.chain;
            ready = record { holds = v.ready.holds; last = v.ready.last };
            limited = v.limited;
            done = v.done;
            all_there = v.all_there;
            balanced =
                ap (λ ps. ps ++ left_at header v.chain)
                  (ap (◌++◌ s.rounds) (places_idle s.prod.mem.producer_done) ∙ append-nil s.rounds)
                ∙ v.balanced;
          }))
    | inr (x, e) ↦
        (let (o, m, round, place, minmax, held) =
            consume-some header s.prod.mem v.chain x v.ready.holds e in
          record {
            chain = mark_first v.chain;
            ready = record {
              holds = held;
              last = v.ready.last ∙ sym (last_from-mark_first header v.chain);
            };
            limited =
                size_only _ s.prod.mem (consume-shm_size s.prod.mem)
                ∙ v.limited
                ∙ sym (consume-shm_size s.prod.mem);
            done = v.done ∙ sym (consume-done s.prod.mem);
            all_there = offsets-mark_first header v.chain ∙ v.all_there;
            balanced =
                ap (λ ps. (s.rounds ++ ps) ++ left_at header (mark_first v.chain)) (ap places round)
                ∙ append_assoc s.rounds (o ∷ []) (left_at header (mark_first v.chain))
                ∙ ap (◌++◌ s.rounds) (sym (left_at-mark_first header o v.chain place))
                ∙ v.balanced;
          })
  ]

  produce-Inv :
      {s : System} (r : ℕ) (rand : ℕ → ℕ)
      → s.ended ≡ false
      → Inv header limit s
      → Inv header limit (produce_step limit r rand s)
  produce-Inv {s} r rand going v =
      elim (dec_le (s.prod.mem.free_offset + block_bytes (5 + r % 11)) (limit s.prod.mem)) [
        | yes room ↦
            (let (goes_on, ready) =
                generate-room limit header r rand s.prod v.chain v.ready v.limited room in
              record {
                chain = v.chain ++ drawn r rand ∷ [];
                ready = ready;
                limited =
                    size_only _ s.prod.mem (generate-shm_size limit r rand s.prod)
                    ∙ v.limited
                    ∙ sym (generate-shm_size limit r rand s.prod);
                done =
                    goes_on ∙ sym (generate-done limit r rand s.prod goes_on ∙ sym v.done ∙ going);
                all_there = rw goes_on (
                    offsets-append header v.chain (drawn r rand)
                    ∙ ap₂ (λ ps p. ps ++ p ∷ []) v.all_there (sym v.ready.holds.free));
                balanced = rw goes_on (
                    ap (◌++◌ s.rounds) (left_at-append header v.chain (drawn r rand) (omega arith))
                    ∙ sym (append_assoc s.rounds (left_at header v.chain) (_ ∷ []))
                    ∙ ap₂ (λ ps p. ps ++ p ∷ []) v.balanced (sym v.ready.holds.free));
              })
        | no full ↦
            (let (stops, same) =
                generate-full limit header r rand s.prod v.chain v.ready v.limited full in
              record {
                chain = v.chain;
                ready = rw same (record {
                  holds = record {
                    positive = v.ready.holds.positive;
                    chained = v.ready.holds.chained;
                    begins = v.ready.holds.begins;
                    free = v.ready.holds.free;
                    fits = v.ready.holds.fits;
                    small = v.ready.holds.small;
                    items = v.ready.holds.items;
                  };
                  last = v.ready.last;
                });
                limited = rw same (size_only _ s.prod.mem refl ∙ v.limited);
                done = stops ∙ sym (ap (λ p. p.mem.producer_done) same);
                all_there = rw stops v.all_there;
                balanced = rw stops v.balanced;
              })
      ]

  -- Every reachable state keeps the balance: the chain holds all the generated blocks, and they are
  -- the blocks processed and those with elements left.
  pub Reach-Inv : {s t : System} → Inv header limit s → Reach limit s t → Inv header limit t
  Reach-Inv v here = v
  Reach-Inv v (next r (produces k rand going)) = produce-Inv k rand going (Reach-Inv v r)
  Reach-Inv v (next r consumes) = consume-Inv (Reach-Inv v r)

  -- From a state with the invariant, in every state that is reached: a consumer's round tells it to
  -- leave only when the producer's loop has ended and the blocks that consumers processed are exactly the
  -- blocks generated, each once and in order: both lists of their offsets are the same, and it rises.
  pub finished-all :
      {s t : System}
      → Inv header limit s
      → Reach limit s t
      → (consume t.prod.mem).0 ≡ finished
      → (t.ended ≡ true) × (t.rounds ≡ t.generated) × Rising t.generated
  finished-all {s} {t} v r f =
      let w : Inv header limit t = Reach-Inv v r in
      elim (Option-cases (pick w.chain)) [
        | inl none_left ↦
            (let e = consume-none header t.prod.mem w.chain w.ready.holds none_left in
              let g : (if t.prod.mem.producer_done then finished else waiting) ≡ finished =
                sym (ap (λ q. q.0) e) ∙ f in
              (
                w.done ∙ ground arith,
                sym (append-nil t.rounds)
                    ∙ ap (◌++◌ t.rounds) (sym (left_at_of_pick-none header w.chain none_left))
                    ∙ w.balanced,
                subst Rising w.all_there (offsets-Rising header w.chain),
              ))
        | inr (x, e) ↦
            (let (o, m, round, place, minmax, held) =
                consume-some header t.prod.mem w.chain x w.ready.holds e in
              absurd (processed-ne-finished o m (sym round ∙ f)))
      ]
