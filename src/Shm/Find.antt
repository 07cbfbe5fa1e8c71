-- ===== src/Shm/Find.antt =====
-- The search along the chain ends, and finds the first block that still has elements.
use eltex_practice.Base.{ℕ, zero, suc, ◌+◌, ◌≤◌, ◌<◌, ◌≡◌, refl, List, [], ◌∷◌, arith, length}
use eltex_practice.Shm.{Block, Shm, find_block, search}
use eltex_practice.Shm.Chain.{Item, bytes, total, link, Seg, first_left}
use eltex_practice.Shm.Generating.{Holds}

pub length-le-total : (xs : List Item) → length xs ≤ total xs
length-le-total [] = omega arith
length-le-total (x ∷ xs) = omega (arith, length-le-total xs)

pub find_block-Seg :
    (fuel : ℕ) (f : ℕ → Block) (o : ℕ) (xs : List Item)
    → length xs < fuel
    → 0 < o
    → Seg f o xs
    → find_block fuel f (link o xs) ≡ first_left o xs
unfolding find_block
find_block-Seg zero f o xs h pos s = absurd (omega arith)
find_block-Seg (suc fuel) f o [] h pos s = refl
find_block-Seg (suc fuel) f o (x ∷ xs) h pos s =
    ground (arith, s.0, find_block-Seg fuel f (o + bytes x) xs (omega arith) (omega arith) s.1)

-- The search of the segment never runs out of rounds, and stops where the chain says.
pub search-Holds :
    (header : ℕ) (s : Shm) (xs : List Item) → Holds header s xs → search s ≡ first_left header xs
unfolding search
search-Holds header s xs v = rw v.begins (
    find_block-Seg (suc s.free_offset) s.block header xs (omega (arith, length-le-total xs, v.free))
      v.positive v.chained)
