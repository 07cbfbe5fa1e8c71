-- ===== src/Copier/Loops.antt =====
-- The loop that reads from one descriptor and writes to another, the same in both processes of
-- module3/task01/copier.c. The answers of `read` and `write` are lists: `read` gives none for an error
-- and no bytes at the end; `write` gives none for an error, else how many bytes it took, less one.
use eltex_practice.Base.{
  ℕ, suc, ◌+◌, ◌≤◌, ◌≡◌, refl, ap, sym, ◌∙◌, Bool, true, false, List, [], ◌∷◌, ◌++◌, map, Option,
  none, some, Bytes, arith, length, take, drop, length-append, length-drop, take-append-drop, All,
}

-- What came out of a loop, how much was counted, and how it ended: none while it still waits.
pub record Copied : Type 0 where
  pub out : Bytes
  pub total : ℕ
  pub ended : Option Bool

-- The inner loop also leaves the answers that it did not use.
pub record Written : Type 0 where
  pub out : Bytes
  pub rest : List (Option ℕ)
  pub ended : Option Bool

unfoldable pub write_loop : List (Option ℕ) → Bytes → Written
write_loop writes [] = record { out = []; rest = writes; ended = some true }
write_loop [] (c ∷ s) = record { out = []; rest = []; ended = none }
write_loop (none ∷ writes) (c ∷ s) = record { out = []; rest = writes; ended = some false }
write_loop (some k ∷ writes) (c ∷ s) =
    let later = write_loop writes (drop (suc k) (c ∷ s)) in
    record { out = take (suc k) (c ∷ s) ++ later.out; rest = later.rest; ended = later.ended }

-- What follows a chunk: the next round, or the end with an error.
abbrev pub after_chunk : Bytes → Written → Copied → Copied
after_chunk chunk written later = elim written.ended [
  | none ↦ record { out = written.out; total = 0; ended = none }
  | some false ↦ record { out = written.out; total = 0; ended = some false }
  | some true ↦ record {
    out = written.out ++ later.out;
    total = length chunk + later.total;
    ended = later.ended;
  }
]

unfoldable pub copy_loop : List (Option Bytes) → List (Option ℕ) → Copied
copy_loop [] writes = record { out = []; total = 0; ended = none }
copy_loop (none ∷ reads) writes = record { out = []; total = 0; ended = some false }
copy_loop (some [] ∷ reads) writes = record { out = []; total = 0; ended = some true }
copy_loop (some (c ∷ s) ∷ reads) writes =
    let written = write_loop writes (c ∷ s) in
    let later = copy_loop reads written.rest in after_chunk (c ∷ s) written later

-- A stream as `read` delivers it, in pieces that are not empty, and all of it.
pub data IsChunk : Bytes → Type 0 where
  chunk : (c : ℕ) (s : Bytes) → IsChunk (c ∷ s)

abbrev pub concat : List Bytes → Bytes
concat [] = []
concat (s ∷ ss) = s ++ concat ss

abbrev pub stream : List Bytes → List (Option Bytes)
stream chunks = map some chunks ++ some [] ∷ []

-- Where no write fails and there are enough of them, the chunk goes out whole, and enough are left.
abbrev IsWhole : List ℕ → Bytes → Type 0
IsWhole ks s =
    (more : List ℕ) × (length ks ≤ length more + length s)
    × (write_loop (map some ks) s ≡ record { out = s; rest = map some more; ended = some true })

write_loop-IsWhole : (ks : List ℕ) (s : Bytes) → length s ≤ length ks → IsWhole ks s
unfolding write_loop
write_loop-IsWhole ks [] h = (ks, omega arith, refl)
write_loop-IsWhole [] (c ∷ s) h = absurd (omega arith)
write_loop-IsWhole (k ∷ ks) (c ∷ s) h =
    let (more, enough, e) = write_loop-IsWhole ks (drop k s) (omega (arith, length-drop k s)) in
    (
      more,
      omega (arith, length-drop k s),
      ap (λ w. record { out = take (suc k) (c ∷ s) ++ w.out; rest = w.rest; ended = w.ended }) e
          ∙ ap (λ t. record { out = t; rest = map some more; ended = some true })
              (take-append-drop (suc k) (c ∷ s)),
    )

-- Then the loop copies the stream, however it and the writes are cut in pieces.
pub copy_loop-stream :
    (chunks : List Bytes) (ks : List ℕ)
    → All IsChunk chunks
    → length (concat chunks) ≤ length ks
    → copy_loop (stream chunks) (map some ks)
      ≡ record { out = concat chunks; total = length (concat chunks); ended = some true }
unfolding copy_loop
copy_loop-stream [] ks v h = refl
copy_loop-stream (_ ∷ chunks) ks (chunk c s, v) h =
    let size : length ((c ∷ s) ++ concat chunks) ≡ suc (length s) + length (concat chunks) =
      length-append (c ∷ s) (concat chunks) in
    let (more, enough, e) = write_loop-IsWhole ks (c ∷ s) (omega arith) in
    let later = copy_loop-stream chunks more v (omega arith) in
    ap (λ w. after_chunk (c ∷ s) w (copy_loop (stream chunks) w.rest)) e
    ∙ ap (after_chunk (c ∷ s) (record { out = c ∷ s; rest = map some more; ended = some true }))
        later
    ∙ ap (λ n. record { out = (c ∷ s) ++ concat chunks; total = n; ended = some true }) (sym size)
