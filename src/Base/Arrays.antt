-- ===== src/Base/Arrays.antt =====
-- Arrays of bytes that hold C strings, as the programs' structs have them.
use Prim.Native.Nat.{ℕ, zero, suc, ◌-◌, ◌≤◌, ◌<◌}
use mathlib.Core.Path.{◌≡◌, refl, ap, subst, ◌∙◌}
use mathlib.Core.List.{[], ◌∷◌, ◌++◌, append-nil}
use native.Mathlib.Omega.{arith}
use eltex_practice.Base.Branching.{◌==◌, if◌then◌else◌}
use eltex_practice.Base.Lists.{
  length, set, take, replicate, length-append, length-replicate, length-take, take_of_le, drop,
  take-append, drop-append,
}
use eltex_practice.Base.Strings.{Bytes, Free}

-- The bytes of a C string, up to its terminator.
abbrev pub until_nul : Bytes → Bytes
until_nul [] = []
until_nul (c ∷ s) = if c == 0 then [] else c ∷ until_nul s

-- An array of `n` bytes, zeroed, with `s` copied to its front.
abbrev pub field : ℕ → Bytes → Bytes
field n s = s ++ replicate (n - length s) 0

-- `memset` of the array of `n` bytes and `strncpy(array, src, n - 1)`.
abbrev pub copy_string : ℕ → Bytes → Bytes
copy_string n src = field n (take (n - 1) (until_nul src))

pub until_nul_whole : (s : Bytes) → Free 0 s → until_nul s ≡ s
until_nul_whole [] h = refl
until_nul_whole (c ∷ s) h = rw (h.0, until_nul_whole s h.1) refl

-- What stands behind a terminator is not read.
until_nul-replicate : (n : ℕ) → until_nul (replicate n 0) ≡ []
until_nul-replicate zero = refl
until_nul-replicate (suc n) = refl

until_nul-append : (s t : Bytes) → Free 0 s → until_nul (s ++ t) ≡ s ++ until_nul t
until_nul-append [] t h = refl
until_nul-append (c ∷ s) t h = rw (h.0, until_nul-append s t h.1) refl

pub until_nul-field : (n : ℕ) (s : Bytes) → Free 0 s → until_nul (field n s) ≡ s
until_nul-field n s h =
    until_nul-append s (replicate (n - length s) 0) h
    ∙ ap (λ t. s ++ t) (until_nul-replicate (n - length s))
    ∙ append-nil s

pub length-field : (n : ℕ) (s : Bytes) → length s ≤ n → length (field n s) ≡ n
length-field n s h =
    omega (
      arith,
      length-append s (replicate (n - length s) 0),
      length-replicate {A = ℕ} (n - length s) 0,
    )

-- A copied string is an array of its length, and is read back up to the room for it.
pub length-copy_string : (n : ℕ) (s : Bytes) → length (copy_string (suc n) s) ≡ suc n
length-copy_string n s =
    length-field (suc n) (take (suc n - 1) (until_nul s))
      (omega (arith, length-take (suc n - 1) (until_nul s)))

pub until_nul-copy_string :
    (n : ℕ) (s : Bytes) → Free 0 s → length s ≤ n - 1 → until_nul (copy_string n s) ≡ s
until_nul-copy_string n s h k =
    ap (λ t. until_nul (field n (take (n - 1) t))) (until_nul_whole s h)
    ∙ ap (λ t. until_nul (field n t)) (take_of_le (n - 1) s k)
    ∙ until_nul-field n s h

-- A zero that is written behind a string leaves the string.
until_nul-set :
    (s : Bytes) (m i : ℕ) → Free 0 s → length s ≤ i → until_nul (set (s ++ replicate m 0) i 0) ≡ s
until_nul-set [] zero i h k = refl
until_nul-set [] (suc m) zero h k = refl
until_nul-set [] (suc m) (suc i) h k = refl
until_nul-set (c ∷ s) m zero h k = absurd (omega arith)
until_nul-set (c ∷ s) m (suc i) h k = rw (h.0, until_nul-set s m i h.1 (omega arith)) refl

-- So for a copied string, where the last byte of the array is cleared.
pub until_nul-set-copy_string :
    (n i : ℕ) (s : Bytes)
    → Free 0 s
    → length s ≤ n - 1
    → length s ≤ i
    → until_nul (set (copy_string n s) i 0) ≡ s
until_nul-set-copy_string n i s h k j =
    ap (λ t. until_nul (set (field n (take (n - 1) t)) i 0)) (until_nul_whole s h)
    ∙ ap (λ t. until_nul (set (field n t) i 0)) (take_of_le (n - 1) s k)
    ∙ until_nul-set s (n - length s) i h j

-- `array[n - 1] = 0`, and the array as `%s` prints it.
abbrev pub ended_at : ℕ → Bytes → Bytes
ended_at n array = until_nul (set array (n - 1) 0)

-- A string that fits an array of `n` bytes with its terminator.
pub record Fits (n : ℕ) (s : Bytes) : Type 0 where
  pub whole : Free 0 s
  pub short : length s < n

pub ended_at-copy_string : (n : ℕ) (s : Bytes) → Fits n s → ended_at n (copy_string n s) ≡ s
ended_at-copy_string n s f =
    until_nul-set-copy_string n (n - 1) s f.whole (omega (arith, f.short)) (omega (arith, f.short))

-- An array at the front of other bytes.
pub take-array : (n : ℕ) (a rest : Bytes) → length a ≡ n → take n (a ++ rest) ≡ a
take-array n a rest e = subst (λ k. take k (a ++ rest) ≡ a) e (take-append a rest)

pub drop-array : (n : ℕ) (a rest : Bytes) → length a ≡ n → drop n (a ++ rest) ≡ rest
drop-array n a rest e = subst (λ k. drop k (a ++ rest) ≡ rest) e (drop-append a rest)

-- A string that fits is copied whole.
pub copy_string-eq-field :
    (n : ℕ) (s : Bytes) → Free 0 s → length s ≤ n - 1 → copy_string n s ≡ field n s
copy_string-eq-field n s h k =
    ap (λ t. field n (take (n - 1) t)) (until_nul_whole s h) ∙ ap (field n) (take_of_le (n - 1) s k)

-- The newline that `fgets` keeps at the end of a line goes.
unfoldable pub cut_newline : Bytes → Bytes
cut_newline [] = []
cut_newline (c ∷ s) = elim s [ [] ↦ if c == 10 then [] else c ∷ [] | d ∷ t ↦ c ∷ cut_newline s ]

pub cut_newline-line : (s : Bytes) → cut_newline (s ++ 10 ∷ []) ≡ s
unfolding cut_newline
cut_newline-line [] = refl
cut_newline-line (c ∷ []) = refl
cut_newline-line (c ∷ d ∷ s) = ap (λ t. c ∷ t) (cut_newline-line (d ∷ s))

pub Free-line : (s : Bytes) → Free 0 s → Free 0 (s ++ 10 ∷ [])
Free-line [] h = (refl, tt)
Free-line (c ∷ s) h = (h.0, Free-line s h.1)
