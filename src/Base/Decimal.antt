-- ===== src/Base/Decimal.antt =====
-- Decimal numbers: `%d` of printf for a number that is not negative, `%d` of sscanf and `atoi`.
use Prim.Native.Nat.{ℕ, zero, suc, ◌+◌, ◌-◌, ◌*◌, ◌/◌, ◌%◌, ◌^◌, ◌≤◌, ◌<◌}
use mathlib.Core.Path.{◌≡◌, refl, ap, ◌∙◌}
use mathlib.Core.Logic.{inl, inr}
use mathlib.Core.Bool.{Bool, true, false, ◌&&◌, ◌||◌}
use mathlib.Core.Option.{Option, none, some}
use mathlib.Core.List.{[], ◌∷◌, ◌++◌}
use native.Mathlib.Omega.{arith}
use eltex_practice.Base.Branching.{◌==◌, ltb, leb, if◌then◌else◌, Bool-cases}
use eltex_practice.Base.Strings.{Bytes, Free}
use eltex_practice.Base.Lists.{length}
use native.Mathlib.Nat.{pow-suc}

abbrev pub is_digit : ℕ → Bool
is_digit c = leb 48 c && leb c 57

-- `isspace` in the C locale.
abbrev pub is_space : ℕ → Bool
is_space c = (c == 32) || (leb 9 c && leb c 13)

-- `show_from f n rest` puts the digits of `n` before `rest`; `f` bounds their number.
unfoldable pub show_from : ℕ → ℕ → Bytes → Bytes
show_from zero n rest = rest
show_from (suc f) n rest = elim (ltb n 10) [
  | true ↦ (48 + n) ∷ rest
  | false ↦ show_from f (n / 10) ((48 + n % 10) ∷ rest)
]

-- Ten digits write every number below 2^32.
unfoldable pub show : ℕ → Bytes
show n = show_from 10 n []

-- The digits at the front, read on top of `acc`, and what follows them.
unfoldable pub read_digits : ℕ → Bytes → ℕ × Bytes
read_digits acc [] = (acc, [])
read_digits acc (c ∷ s) = elim (is_digit c) [
  | true ↦ read_digits (acc * 10 + (c - 48)) s
  | false ↦ (acc, c ∷ s)
]

unfoldable pub skip_space : Bytes → Bytes
skip_space [] = []
skip_space (c ∷ s) = elim (is_space c) [ true ↦ skip_space s | false ↦ c ∷ s ]

-- An `int` stands as its 32-bit pattern.
abbrev pub int_bits : Bool → ℕ → ℕ
int_bits true n = (2 ^ 32 - n % 2 ^ 32) % 2 ^ 32
int_bits false n = n % 2 ^ 32

-- At least one digit must stand after the sign.
unfoldable pub scan_digits : Bool → Bytes → Option (ℕ × Bytes)
scan_digits neg [] = none
scan_digits neg (c ∷ s) =
    if is_digit c
    then (let (n, rest) = read_digits 0 (c ∷ s) in some (int_bits neg n, rest))
    else none

unfoldable pub scan_sign : Bytes → Option (ℕ × Bytes)
unfolding scan_digits
scan_sign [] = none
scan_sign (c ∷ s) =
    if c == b'-'
    then scan_digits true s
    else if c == b'+'
    then scan_digits false s
    else scan_digits false (c ∷ s)

-- `%d` of sscanf: the value and the rest of the input, or no conversion.
unfoldable pub scan_int : Bytes → Option (ℕ × Bytes)
unfolding scan_sign skip_space
scan_int s = scan_sign (skip_space s)

-- `atoi`: 0 where there is no number.
unfoldable pub atoi : Bytes → ℕ
atoi s = elim (scan_int s) [ none ↦ 0 | some (n, rest) ↦ n ]

show_from-append : (f n : ℕ) (a b : Bytes) → show_from f n a ++ b ≡ show_from f n (a ++ b)
unfolding show_from
show_from-append zero n a b = refl
show_from-append (suc f) n a b = elim (Bool-cases (ltb n 10)) [
  | inl h ↦ rw (h, show_from)
  | inr h ↦ rw (h, show_from) (show_from-append f (n / 10) ((48 + n % 10) ∷ a) b)
]

read_digits-show_from :
    (f n : ℕ) (rest : Bytes) → n < 10 ^ f → read_digits 0 (show_from f n rest) ≡ read_digits n rest
unfolding show_from read_digits
read_digits-show_from zero n rest h = ap (λ k. read_digits k rest) (omega arith)
read_digits-show_from (suc f) n rest h =
    let b : n / 10 < 10 ^ f = omega (arith, pow-suc 10 f) in
    ground (arith, read_digits-show_from f (n / 10) ((48 + n % 10) ∷ rest) b)

-- What is shown begins with a digit.
abbrev StartsDigit : Bytes → Type 0
StartsDigit [] = ⊥
StartsDigit (c ∷ s) = is_digit c ≡ true

show_from-StartsDigit : (f n : ℕ) (s : Bytes) → StartsDigit s → StartsDigit (show_from f n s)
unfolding show_from
show_from-StartsDigit zero n s h = h
show_from-StartsDigit (suc f) n s h = elim (Bool-cases (ltb n 10)) [
  | inl e ↦ rw (e, show_from) (ground arith)
  | inr e ↦ rw (e, show_from) (show_from-StartsDigit f (n / 10) ((48 + n % 10) ∷ s) (ground arith))
]

show-StartsDigit : (f n : ℕ) (s : Bytes) → StartsDigit (show_from (suc f) n s)
unfolding show_from
show-StartsDigit f n s = elim (Bool-cases (ltb n 10)) [
  | inl e ↦ rw (e, show_from) (ground arith)
  | inr e ↦ rw (e, show_from) (show_from-StartsDigit f (n / 10) ((48 + n % 10) ∷ s) (ground arith))
]

scan_int-digits :
    (s : Bytes)
    → StartsDigit s
    → scan_int s ≡ some (int_bits false (read_digits 0 s).0, (read_digits 0 s).1)
unfolding scan_int skip_space scan_digits
scan_int-digits [] h = absurd h
scan_int-digits (c ∷ s) h = ground arith

-- `%d` reads back what `%d` printed, up to a byte that is no digit.
pub scan_int-show :
    (n c : ℕ) (s : Bytes)
    → n < 2 ^ 31
    → is_digit c ≡ false
    → scan_int (show n ++ c ∷ s) ≡ some (n, c ∷ s)
unfolding show read_digits
scan_int-show n c s h d = rw show_from-append (
    scan_int-digits _ (show-StartsDigit 9 n (c ∷ s))
    ∙ rw (read_digits-show_from 10 n (c ∷ s) (omega arith)) (ground arith))

pub atoi-show : (n c : ℕ) (s : Bytes) → n < 2 ^ 31 → is_digit c ≡ false → atoi (show n ++ c ∷ s) ≡ n
unfolding atoi
atoi-show n c s h d = rw (scan_int-show n c s h d, atoi)

length-show_from : (f n : ℕ) (s : Bytes) → length (show_from f n s) ≤ f + length s
unfolding show_from
length-show_from zero n s = omega arith
length-show_from (suc f) n s = elim (Bool-cases (ltb n 10)) [
  | inl e ↦ rw (e, show_from) (omega arith)
  | inr e ↦ rw (e, show_from) (omega (arith, length-show_from f (n / 10) ((48 + n % 10) ∷ s)))
]

pub length-show : (n : ℕ) → length (show n) ≤ 10
unfolding show
length-show n = omega (arith, length-show_from 10 n [])

length-show_from_byte :
    (f n : ℕ) (s : Bytes) → n < 256 → length (show_from (suc (suc (suc f))) n s) ≤ 3 + length s
unfolding show_from
length-show_from_byte f n s h = elim (Bool-cases (ltb n 10)) [
  | inl e ↦ rw (e, show_from) (omega arith)
  | inr e ↦
      rw (e, show_from)
        (elim (Bool-cases (ltb (n / 10) 10)) [
          | inl t ↦ rw (t, show_from) (omega arith)
          | inr t ↦
              (let u : ltb (n / 10 / 10) 10 ≡ true = ground arith in
                rw (t, show_from) (rw (u, show_from) (omega arith)))
        ])
]

pub length-show_byte : (n : ℕ) → n < 256 → length (show n) ≤ 3
unfolding show
length-show_byte n h = omega (arith, length-show_from_byte 7 n [] h)

Free-digits : (f n d : ℕ) (s : Bytes) → is_digit d ≡ false → Free d s → Free d (show_from f n s)
unfolding show_from
Free-digits zero n d s h k = k
Free-digits (suc f) n d s h k = elim (Bool-cases (ltb n 10)) [
  | inl e ↦ rw (e, show_from) (ground arith, k)
  | inr e ↦ rw (e, show_from) (Free-digits f (n / 10) d ((48 + n % 10) ∷ s) h (ground arith, k))
]

pub Free-show : (n d : ℕ) → is_digit d ≡ false → Free d (show n)
unfolding show
Free-show n d h = Free-digits 10 n d [] h tt

-- `%ns` of sscanf behind the blanks: the bytes up to a blank, `n` at most.
unfoldable pub scan_word : ℕ → Bytes → Bytes
scan_word zero s = []
scan_word (suc n) [] = []
scan_word (suc n) (c ∷ s) = if is_space c then [] else c ∷ scan_word n s

-- No byte of it is a blank.
abbrev pub NoSpace : Bytes → Type 0
NoSpace [] = Unit {0}
NoSpace (c ∷ s) = (is_space c ≡ false) × NoSpace s

pub scan_word_whole : (n : ℕ) (s : Bytes) → NoSpace s → length s ≤ n → scan_word n s ≡ s
unfolding scan_word
scan_word_whole zero [] h k = refl
scan_word_whole zero (c ∷ s) h k = absurd (omega arith)
scan_word_whole (suc n) [] h k = refl
scan_word_whole (suc n) (c ∷ s) h k = ground (arith, scan_word_whole n s h.1)

pub length-scan_word : (n : ℕ) (s : Bytes) → length (scan_word n s) ≤ n
unfolding scan_word
length-scan_word zero s = omega arith
length-scan_word (suc n) [] = omega arith
length-scan_word (suc n) (c ∷ s) = ground (arith, length-scan_word n s)

pub skip_space_whole : (s : Bytes) → NoSpace s → skip_space s ≡ s
unfolding skip_space
skip_space_whole [] h = refl
skip_space_whole (c ∷ s) h = ground arith
