-- ===== src/Shm/Generating.antt =====
-- The producer's rounds: the invariant of the segment, and what one round adds to the chain.
use eltex_practice.Base.{
  ℕ, zero, suc, ◌+◌, ◌%◌, ◌^◌, ◌≤◌, ◌<◌, ◌≡◌, refl, ap, sym, subst, ◌∙◌, true, false, List, [], ◌∷◌,
  ◌++◌, arith, length, ◌==◌, ltb, inr, ◌⊎◌, All, All-append,
}
use eltex_practice.Shm.{
  Block, Shm, Producer, update, block_bytes, add_size, draw_vals, link_block, generate,
}
use eltex_practice.Shm.Chain.{
  Item, bytes, total, link, Seg, last_from, total-append, block_of, linked, Seg-linked,
}

-- An item is whole or processed, and was never empty.
abbrev pub IsItem : Item → Type 0
IsItem x = (1 ≤ length x.vals) × ((x.left ≡ 0) ⊎ (x.left ≡ length x.vals))

-- The segment holds exactly the chain `xs` behind a header of `header` bytes, and the next block
-- goes right behind it; no block reaches over the end of the segment.
pub record Holds (header : ℕ) (s : Shm) (xs : List Item) : Type 0 where
  pub positive : 0 < header
  pub chained : Seg s.block header xs
  pub begins : s.first_block_offset ≡ link header xs
  pub free : s.free_offset ≡ header + total xs
  pub fits : s.free_offset ≤ s.shm_size
  pub small : s.shm_size < 2 ^ 32
  pub items : All IsItem xs

pub length-draw_vals : (n : ℕ) (rand : ℕ → ℕ) → length (draw_vals n rand) ≡ n
unfolding draw_vals
length-draw_vals zero rand = refl
length-draw_vals (suc n) rand = ap suc (length-draw_vals n (λ i. rand (suc i)))

-- The item of a round: 5 to 15 elements below 100.
abbrev pub drawn : ℕ → (ℕ → ℕ) → Item
drawn r rand = record { left = 5 + r % 11; vals = draw_vals (5 + r % 11) rand }

link_block_first :
    (p : Producer) (b : Block)
    → p.mem.first_block_offset ≡ 0
    → link_block p b ≡ record (p.mem) {
      first_block_offset = p.mem.free_offset;
      block = update p.mem.block p.mem.free_offset b;
    }
unfolding link_block
link_block_first p b h = ground arith

link_block_next :
    (p : Producer) (b : Block)
    → 0 < p.mem.first_block_offset
    → link_block p b
      ≡ record (p.mem) { block = linked p.mem.block p.mem.free_offset p.last_block_offset b }
unfolding link_block
link_block_next p b h =
    let q : (p.mem.first_block_offset == 0) ≡ false = ground arith in rw (q, link_block)

link_block-Seg :
    (header : ℕ) (p : Producer) (xs : List Item) (x : Item)
    → Holds header p.mem xs
    → p.last_block_offset ≡ last_from header xs
    → Seg (link_block p (block_of p.mem.free_offset x [])).block header (xs ++ x ∷ [])
link_block-Seg header p [] x v h = rw (link_block_first p _ v.begins) (ground arith, tt)
link_block-Seg header p (y ∷ xs) x v h =
    subst (λ s. Seg s.block header ((y ∷ xs) ++ x ∷ []))
      (sym
        (link_block_next p (block_of p.mem.free_offset x []) (omega (arith, v.begins, v.positive))))
      (Seg-linked p.mem.block header p.mem.free_offset p.last_block_offset y xs x v.free h
        v.chained)

-- The state of the producer beside the segment.
pub record Ready (header : ℕ) (p : Producer) (xs : List Item) : Type 0 where
  pub holds : Holds header p.mem xs
  pub last : p.last_block_offset ≡ last_from header xs

last_from-append : (o : ℕ) (xs : List Item) (x : Item) → last_from o (xs ++ x ∷ []) ≡ o + total xs
last_from-append o [] x = omega arith
last_from-append o (y ∷ []) x = omega arith
last_from-append o (y ∷ z ∷ xs) x = omega (arith, last_from-append (o + bytes y) (z ∷ xs) x)

link-append : (o : ℕ) (xs : List Item) (x : Item) → link o (xs ++ x ∷ []) ≡ o
link-append o [] x = refl
link-append o (y ∷ xs) x = refl

link_block-first :
    (header : ℕ) (p : Producer) (xs : List Item) (b : Block)
    → Holds header p.mem xs
    → (link_block p b).first_block_offset ≡ header
unfolding link_block
link_block-first header p [] b v = ground arith
link_block-first header p (y ∷ xs) b v = ground arith

link_block-shm_size : (p : Producer) (b : Block) → (link_block p b).shm_size ≡ p.mem.shm_size
unfolding link_block
link_block-shm_size p b = ground arith

link_block-done : (p : Producer) (b : Block) → (link_block p b).producer_done ≡ p.mem.producer_done
unfolding link_block
link_block-done p b = ground arith

-- There is room for the round's block.
abbrev pub FitsIn : (Shm → ℕ) → ℕ → Shm → Type 0
FitsIn limit r s = s.free_offset + block_bytes (5 + r % 11) ≤ limit s

module _ (limit : Shm → ℕ) (header r : ℕ) (rand : ℕ → ℕ) (p : Producer) (xs : List Item)
    (ready : Ready header p xs) (lim : limit p.mem ≡ p.mem.shm_size) where
  no_wrap :
      add_size p.mem.free_offset (block_bytes (5 + r % 11))
      ≡ p.mem.free_offset + block_bytes (5 + r % 11)
  no_wrap = omega (arith, ready.holds.fits, ready.holds.small)

  room_test :
      FitsIn limit r p.mem
      → ltb (limit p.mem) (add_size p.mem.free_offset (block_bytes (5 + r % 11))) ≡ false
  room_test room = rw no_wrap (ground arith)

  after : Producer
  after = record {
    mem = record (link_block p (block_of p.mem.free_offset (drawn r rand) [])) {
      free_offset = add_size p.mem.free_offset (block_bytes (5 + r % 11));
    };
    last_block_offset = p.mem.free_offset;
  }

  generate_eq : FitsIn limit r p.mem → generate limit r rand p ≡ (false, after)
  unfolding generate after
  generate_eq room = rw (room_test room, generate)

  after-Ready : FitsIn limit r p.mem → Ready header after (xs ++ drawn r rand ∷ [])
  unfolding after
  after-Ready room = record {
    holds = record {
      positive = v.positive;
      chained = link_block-Seg header p xs (drawn r rand) v ready.last;
      begins = link_block-first header p xs _ v ∙ sym (link-append header xs (drawn r rand));
      free = omega (
        arith,
        no_wrap,
        total-append xs (drawn r rand),
        v.free,
        length-draw_vals (5 + r % 11) rand,
      );
      fits = rw (link_block-shm_size p, no_wrap) (omega arith);
      small = rw (link_block-shm_size p) v.small;
      items = All-append IsItem xs (drawn r rand ∷ []) v.items (
        (
          omega (arith, length-draw_vals (5 + r % 11) rand),
          inr (sym (length-draw_vals (5 + r % 11) rand)),
        ),
        tt,
      );
    };
    last = omega (arith, last_from-append header xs (drawn r rand), v.free);
  }
    where
      v : Holds header p.mem xs
      v = ready.holds

  -- From a producer that is ready, with a chain in a segment that the limit does not exceed, a round for
  -- which the drawn block fits appends that block to the chain and goes on, ready again.
  pub generate-room :
      FitsIn limit r p.mem
      → ((generate limit r rand p).0 ≡ false)
        × Ready header (generate limit r rand p).1 (xs ++ drawn r rand ∷ [])
  generate-room room = rw (generate_eq room) (refl, after-Ready room)

  -- A round without room only raises `producer_done`, and ends the loop.
  pub generate-full :
      (FitsIn limit r p.mem → ⊥)
      → ((generate limit r rand p).0 ≡ true)
        × ((generate limit r rand p).1 ≡ record p { mem = record (p.mem) { producer_done = true } })
  unfolding generate
  generate-full none_left =
      let t : ltb (limit p.mem) (add_size p.mem.free_offset (block_bytes (5 + r % 11))) ≡ true =
        rw no_wrap (ground arith) in
      rw (t, generate) (refl, refl)
