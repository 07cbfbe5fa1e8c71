-- ===== src/Shm/Chain.antt =====
-- The chain of blocks in the segment as a list of items, laid out one behind the other.
use eltex_practice.Base.{
  ℕ, ◌+◌, ◌≤◌, ◌<◌, ◌≡◌, refl, ap, sym, ◌∙◌, List, [], ◌∷◌, ◌++◌, arith, length, if◌then◌else◌, ltb,
  Bool-cases, inl, inr,
}
use eltex_practice.Shm.{Block, update, block_bytes, Found, at, all_processed}

-- A block as the processes mean it: how many elements are left to process, and its elements.
pub record Item : Type 0 where
  pub left : ℕ
  pub vals : List ℕ

abbrev pub bytes : Item → ℕ
bytes x = block_bytes (length x.vals)

abbrev pub total : List Item → ℕ
total [] = 0
total (x ∷ xs) = bytes x + total xs

-- The offset where a chain that would begin at `o` begins: 0 stands for no block.
abbrev pub link : ℕ → List Item → ℕ
link o [] = 0
link o (x ∷ xs) = o

abbrev pub block_of : ℕ → Item → List Item → Block
block_of o x xs = record {
  num_elements = x.left;
  next_block_offset = link (o + bytes x) xs;
  vals = x.vals;
}

-- From offset `o` on the memory holds exactly these items, each linked to the next.
abbrev pub Seg : (ℕ → Block) → ℕ → List Item → Type 0
Seg f o [] = Unit {0}
Seg f o (x ∷ xs) = (f o ≡ block_of o x xs) × Seg f (o + bytes x) xs

abbrev pub last_from : ℕ → List Item → ℕ
last_from o [] = 0
last_from o (x ∷ []) = o
last_from o (x ∷ y ∷ xs) = last_from (o + bytes x) (y ∷ xs)

pub last_from-bounds :
    (o : ℕ) (x : Item) (xs : List Item)
    → (o ≤ last_from o (x ∷ xs)) × (last_from o (x ∷ xs) < o + total (x ∷ xs))
last_from-bounds o x [] = omega arith
last_from-bounds o x (y ∷ xs) = omega (arith, last_from-bounds (o + bytes x) y xs)

-- A write below a chain leaves it alone.
pub Seg-update_below :
    (f : ℕ → Block) (o i : ℕ) (b : Block) (xs : List Item)
    → i < o
    → Seg f o xs
    → Seg (update f i b) o xs
Seg-update_below f o i b [] h s = tt
Seg-update_below f o i b (x ∷ xs) h s =
    (ground (arith, s.0), Seg-update_below f (o + bytes x) i b xs (omega arith) s.1)

pub total-append : (xs : List Item) (x : Item) → total (xs ++ x ∷ []) ≡ total xs + bytes x
total-append [] x = omega arith
total-append (y ∷ xs) x = omega (arith, total-append xs x)

-- The memory after a block has been put at `e` and linked from the block at `l`.
abbrev pub linked : (ℕ → Block) → ℕ → ℕ → Block → ℕ → Block
linked f e l b = update (update f e b) l (record (update f e b l) { next_block_offset = e })

pub update_lt : (f : ℕ → Block) (i j : ℕ) (b : Block) → j < i → update f i b j ≡ f j
update_lt f i j b h = ground arith

-- Linking a new block behind a chain that is not empty extends the chain by it.
pub Seg-linked :
    (f : ℕ → Block) (o e l : ℕ) (y : Item) (xs : List Item) (x : Item)
    → e ≡ o + total (y ∷ xs)
    → l ≡ last_from o (y ∷ xs)
    → Seg f o (y ∷ xs)
    → Seg (linked f e l (block_of e x [])) o ((y ∷ xs) ++ x ∷ [])
Seg-linked f o e l y [] x he hl s = (ground (arith, s.0), (ground (arith, s.0), tt))
Seg-linked f o e l y (z ∷ xs) x he hl s = (
  update_lt (update f e (block_of e x [])) l o _
        (omega (arith, last_from-bounds (o + bytes y) z xs))
      ∙ update_lt f e o _ (omega arith)
      ∙ s.0,
  Seg-linked f (o + bytes y) e l z xs x (omega arith) hl s.1,
)

-- Where the search stops on a chain.
abbrev pub first_left : ℕ → List Item → Found
first_left o [] = all_processed
first_left o (x ∷ xs) = if ltb 0 x.left then at o else first_left (o + bytes x) xs

-- The items after the first that has elements left was processed.
abbrev pub mark_first : List Item → List Item
mark_first [] = []
mark_first (x ∷ xs) = if ltb 0 x.left then record x { left = 0 } ∷ xs else x ∷ mark_first xs

pub link-mark_first : (o : ℕ) (xs : List Item) → link o (mark_first xs) ≡ link o xs
link-mark_first o [] = refl
link-mark_first o (x ∷ xs) = ground arith

pub total-mark_first : (xs : List Item) → total (mark_first xs) ≡ total xs
total-mark_first [] = refl
total-mark_first (x ∷ xs) = ground (arith, total-mark_first xs)

pub first_left-bound :
    (o i : ℕ) (xs : List Item) → first_left o xs ≡ at i → (o ≤ i) × (i < o + total xs)
first_left-bound o i [] h = ground arith
first_left-bound o i (x ∷ xs) h = ground (arith, first_left-bound (o + bytes x) i xs)

mark_here :
    (f : ℕ → Block) (o i : ℕ) (x : Item) (xs : List Item)
    → o ≡ i
    → f o ≡ block_of o x xs
    → update f i (record (f i) { num_elements = 0 }) o ≡ block_of o (record x { left = 0 }) xs
mark_here f o i x xs e h = ground arith

-- Clearing the count of the block that the search found processes the first item left.
pub Seg-mark :
    (f : ℕ → Block) (o i : ℕ) (xs : List Item)
    → first_left o xs ≡ at i
    → Seg f o xs
    → Seg (update f i (record (f i) { num_elements = 0 })) o (mark_first xs)
Seg-mark f o i [] h s = ground arith
Seg-mark f o i (x ∷ xs) h s = elim (Bool-cases (ltb 0 x.left)) [
  | inl e ↦
      (let p : o ≡ i = ground arith in
        rw e
          (mark_here f o i x xs p s.0, Seg-update_below f (o + bytes x) i _ xs (omega arith) s.1))
  | inr e ↦
      (let p : first_left (o + bytes x) xs ≡ at i = ground arith in
        rw e (
          update_lt f i o _ (omega (arith, first_left-bound (o + bytes x) i xs p))
              ∙ s.0
              ∙ ap (λ k. record { num_elements = x.left; next_block_offset = k; vals = x.vals })
                  (sym (link-mark_first (o + bytes x) xs)),
          Seg-mark f (o + bytes x) i xs p s.1,
        ))
]
