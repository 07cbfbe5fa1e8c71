-- ===== src/Shm/Loop.antt =====
-- `run_generation_loop` as a whole: it ends, with the flag raised and every block in the chain.
use eltex_practice.Base.{
  ℕ, zero, suc, ◌+◌, ◌%◌, ◌<◌, ◌≡◌, ap, sym, ◌∙◌, true, List, [], ◌∷◌, ◌++◌, Option, none, some,
  arith, if◌then◌else◌, append_assoc, append-nil, All,
}
use native.Mathlib.Decide.{dec_le}
use eltex_practice.Shm.{Shm, Producer, generate, block_bytes}
use eltex_practice.Shm.Chain.{Item, total-append}
use eltex_practice.Shm.Generating.{Ready, drawn, generate-room, generate-full}
use eltex_practice.Shm.Run.{generate-shm_size}

-- The rounds of the loop; each takes one element of `draws`, the values that `rand` returns in it.
unfoldable pub run_generation : ℕ → (Shm → ℕ) → (ℕ → ℕ × (ℕ → ℕ)) → Producer → Option Producer
run_generation zero limit draws p = none
run_generation (suc fuel) limit draws p =
    let (stop, p') = generate limit (draws 0).0 (draws 0).1 p in
    let rest = run_generation fuel limit (λ i. draws (suc i)) p' in if stop then some p' else rest

-- What the loop leaves: its chain begins with the blocks that were there, those behind them have all
-- their elements left, and the flag is up.
pub record Generated (header : ℕ) (xs : List Item) (r : Option Producer) : Type 0 where
  pub result : Producer
  pub more : List Item
  pub ends : r ≡ some result
  pub flag : result.mem.producer_done ≡ true
  pub fresh : All (λ x. 0 < x.left) more
  pub ready : Ready header result (xs ++ more)

module _ (header : ℕ) (limit : Shm → ℕ)
    (size_only : (m n : Shm) → m.shm_size ≡ n.shm_size → limit m ≡ limit n) where
  -- From a ready producer whose limit is the size of its segment, the loop ends within one round more than
  -- the segment has free bytes, with the flag up and a chain that begins with the blocks that were there; the others are not processed yet.
  pub run_generation-Generated :
      (fuel : ℕ) (draws : ℕ → ℕ × (ℕ → ℕ)) (p : Producer) (xs : List Item)
      → Ready header p xs
      → limit p.mem ≡ p.mem.shm_size
      → p.mem.shm_size < fuel + p.mem.free_offset
      → Generated header xs (run_generation fuel limit draws p)
  unfolding run_generation
  run_generation-Generated zero draws p xs v lim enough = absurd (omega (arith, v.holds.fits))
  run_generation-Generated (suc fuel) draws p xs v lim enough =
      let r : ℕ = (draws 0).0 in
      let rand : ℕ → ℕ = (draws 0).1 in
      elim (dec_le (p.mem.free_offset + block_bytes (5 + r % 11)) (limit p.mem)) [
        | yes room ↦
            (let (goes_on, ready) = generate-room limit header r rand p xs v lim room in
              let size = generate-shm_size limit r rand p in
              let g =
                run_generation-Generated fuel (λ i. draws (suc i)) (generate limit r rand p).1
                  (xs ++ drawn r rand ∷ []) ready (size_only _ p.mem size ∙ lim ∙ sym size)
                  (omega (
                    arith,
                    size,
                    ready.holds.free,
                    v.holds.free,
                    total-append xs (drawn r rand),
                    enough,
                  )) in
              record {
                result = g.result;
                more = drawn r rand ∷ g.more;
                ends = rw (goes_on, run_generation) g.ends;
                flag = g.flag;
                fresh = (omega arith, g.fresh);
                ready = rw (append_assoc xs (drawn r rand ∷ []) g.more) at g.ready;
              })
        | no full ↦
            (let (stops, same) = generate-full limit header r rand p xs v lim full in
              record {
                result = (generate limit r rand p).1;
                more = [];
                ends = rw (stops, run_generation);
                flag = ap (λ q. q.mem.producer_done) same;
                fresh = tt;
                ready =
                    rw (append-nil xs, same)
                      (record {
                        holds = record {
                          positive = v.holds.positive;
                          chained = v.holds.chained;
                          begins = v.holds.begins;
                          free = v.holds.free;
                          fits = v.holds.fits;
                          small = v.holds.small;
                          items = v.holds.items;
                        };
                        last = v.last;
                      });
              })
      ]
