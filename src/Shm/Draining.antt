-- ===== src/Shm/Draining.antt =====
-- `run_consumer_loop` as a whole, for a consumer whose rounds no other process comes between: it ends, and
-- the producer's wait after it.
use eltex_practice.Base.{
  ℕ, zero, suc, ◌<◌, ◌≡◌, refl, ◌∙◌, true, List, [], ◌∷◌, ◌++◌, Option, none, some, arith,
  if◌then◌else◌, ltb, Option-cases, inl, inr, map, All, length, subst, ◌≤◌, ◌+◌,
}
use eltex_practice.Shm.{
  Shm, Producer, Round, processed, finished, waiting, stuck, consume, poll_processed,
}
use eltex_practice.Shm.Chain.{Item, mark_first}
use eltex_practice.Shm.Find.{length-le-total}
use eltex_practice.Shm.Generating.{Holds, Ready}
use eltex_practice.Shm.Consuming.{
  IsMinMax, pick, consume-some, consume-none, poll_processed_iff, AllProcessed,
}
use eltex_practice.Shm.Run.{live, live-mark_first, consume-done}
use eltex_practice.Shm.Loop.{run_generation, run_generation-Generated}

-- A line of the consumer: the offset of a block, and its least and greatest element.
abbrev pub Report : Type 0
Report = ℕ × (ℕ × ℕ)

-- What a round does with what the later rounds come to.
abbrev pub after_round : Round → Shm → Option (List Report × Shm) → Option (List Report × Shm)
after_round (processed o m) s none = none
after_round (processed o m) s (some (reports, t)) = some ((o, m) ∷ reports, t)
after_round finished s rest = some ([], s)
after_round waiting s rest = rest
after_round stuck s rest = none

unfoldable pub run_consumer_loop : ℕ → Shm → Option (List Report × Shm)
run_consumer_loop zero s = none
run_consumer_loop (suc fuel) s =
    let (round, t) = consume s in let rest = run_consumer_loop fuel t in after_round round t rest

-- The elements of the blocks that have some left, in the order of the chain.
abbrev pub unprocessed : List Item → List (List ℕ)
unprocessed [] = []
unprocessed (x ∷ xs) = if ltb 0 x.left then x.vals ∷ unprocessed xs else unprocessed xs

-- One report for each block, with its least and greatest element.
abbrev pub Reported : List (List ℕ) → List Report → Type 0
Reported [] [] = Unit {0}
Reported [] (r ∷ rs) = ⊥
Reported (b ∷ bs) [] = ⊥
Reported (b ∷ bs) (r ∷ rs) = IsMinMax b r.1 × Reported bs rs

-- The loop ends, has reported these blocks, and leaves nothing to process.
pub record Drained (blocks : List (List ℕ)) (r : Option (List Report × Shm)) : Type 0 where
  pub reports : List Report
  pub mem : Shm
  pub ends : r ≡ some (reports, mem)
  pub reported : Reported blocks reports
  pub wait_ends : poll_processed mem ≡ true

unprocessed-mark_first :
    (xs : List Item) (x : Item)
    → pick xs ≡ some x
    → unprocessed xs ≡ x.vals ∷ unprocessed (mark_first xs)
unprocessed-mark_first [] x e = ground arith
unprocessed-mark_first (y ∷ xs) x e = ground (arith, unprocessed-mark_first xs x)

unprocessed_of_pick-none : (xs : List Item) → pick xs ≡ none → unprocessed xs ≡ []
unprocessed_of_pick-none [] e = refl
unprocessed_of_pick-none (y ∷ xs) e = ground (arith, unprocessed_of_pick-none xs)

pick-none-AllProcessed : (xs : List Item) → pick xs ≡ none → AllProcessed xs
pick-none-AllProcessed [] e = tt
pick-none-AllProcessed (y ∷ xs) e = (ground arith, pick-none-AllProcessed xs (ground arith))

-- Once the producer is done, a consumer that runs alone processes the blocks left in their order, one in
-- each round, and leaves in the round after them.
pub run_consumer_loop-Drained :
    (header fuel : ℕ) (s : Shm) (xs : List Item)
    → Holds header s xs
    → s.producer_done ≡ true
    → live xs < fuel
    → Drained (unprocessed xs) (run_consumer_loop fuel s)
unfolding run_consumer_loop
run_consumer_loop-Drained header zero s xs v done enough = absurd (omega arith)
run_consumer_loop-Drained header (suc fuel) s xs v done enough = elim (Option-cases (pick xs)) [
  | inl none_left ↦
      (let e : consume s ≡ (finished, s) = consume-none header s xs v none_left ∙ rw done in
        rw (unprocessed_of_pick-none xs none_left) (record {
          reports = [];
          mem = s;
          ends = rw (e, run_consumer_loop);
          reported = tt;
          wait_ends = (poll_processed_iff header s xs v).1 (pick-none-AllProcessed xs none_left);
        }))
  | inr (x, e) ↦
      (let (o, m, round, place, minmax, held) = consume-some header s xs x v e in
        let rest =
          run_consumer_loop-Drained header fuel (consume s).1 (mark_first xs) held
            (consume-done s ∙ done) (omega (arith, live-mark_first xs x e)) in
        rw (unprocessed-mark_first xs x e) (record {
          reports = (o, m) ∷ rest.reports;
          mem = rest.mem;
          ends = rw (round, rest.ends, run_consumer_loop);
          reported = (minmax, rest.reported);
          wait_ends = rest.wait_ends;
        }))
]

live-le-free_offset :
    (header : ℕ) (s : Shm) (xs : List Item) → Holds header s xs → live xs < s.free_offset
live-le-free_offset header s xs v =
    omega (arith, v.free, v.positive, live-le-length xs, length-le-total xs)
  where
    live-le-length : (ys : List Item) → live ys ≤ length ys
    live-le-length [] = omega arith
    live-le-length (y ∷ ys) = ground (arith, live-le-length ys)

unprocessed-append :
    (xs more : List Item)
    → All (λ x. 0 < x.left) more
    → unprocessed (xs ++ more) ≡ unprocessed xs ++ map (λ x. x.vals) more
unprocessed-append [] [] h = refl
unprocessed-append [] (y ∷ more) h = ground (arith, unprocessed-append [] more h.1)
unprocessed-append (x ∷ xs) more h = ground (arith, unprocessed-append xs more h)

-- What a run of the producer and then of a consumer comes to: both loops end, and the consumer reports the
-- blocks that were left in the chain and then those that the producer made.
pub record Exchanged (header : ℕ) (xs : List Item) (r : Option Producer) : Type 0 where
  pub result : Producer
  pub made : List Item
  pub ends : r ≡ some result
  pub ready : Ready header result (xs ++ made)
  pub drained :
      Drained
        (unprocessed xs ++ map (λ x. x.vals) made)
        (run_consumer_loop result.mem.free_offset result.mem)

module _ (header : ℕ) (limit : Shm → ℕ)
    (size_only : (m n : Shm) → m.shm_size ≡ n.shm_size → limit m ≡ limit n) where
  -- From a ready producer whose limit is the size of its segment: the generation loop ends, and a consumer that
  -- then runs alone leaves its loop within as many rounds as the segment has bytes in use. It has reported,
  -- in order and once each, the least and the greatest element of every block that was left and of every
  -- block that the loop made, and the producer's wait then ends at its first look.
  pub run_consumer_loop-run_generation :
      (fuel : ℕ) (draws : ℕ → ℕ × (ℕ → ℕ)) (p : Producer) (xs : List Item)
      → Ready header p xs
      → limit p.mem ≡ p.mem.shm_size
      → p.mem.shm_size < fuel + p.mem.free_offset
      → Exchanged header xs (run_generation fuel limit draws p)
  run_consumer_loop-run_generation fuel draws p xs v lim enough =
      let g = run_generation-Generated header limit size_only fuel draws p xs v lim enough in
      record {
        result = g.result;
        made = g.more;
        ends = g.ends;
        ready = g.ready;
        drained =
            subst (λ bs. Drained bs (run_consumer_loop g.result.mem.free_offset g.result.mem))
              (unprocessed-append xs g.more g.fresh)
              (run_consumer_loop-Drained header g.result.mem.free_offset g.result.mem (xs ++ g.more)
                g.ready.holds g.flag
                (live-le-free_offset header g.result.mem (xs ++ g.more) g.ready.holds));
      }
