-- ===== src/Devices/Chardev.antt =====
-- module5/task4/chardev.c. `msg` is the array of `BUF_LEN` bytes up to its first zero byte, which a write of
-- at most `BUF_LEN - 1` bytes always leaves there; `offset` belongs to the open file.
use eltex_practice.Base.{
  take_of_le, ℕ, zero, suc, ◌+◌, ◌-◌, ◌<◌, ◌≤◌, ◌≡◌, refl, ap, sym, subst, ◌⊎◌, inl, inr,
  length-drop, ◌∙◌, Bool, true, false, [], ◌∷◌, ◌++◌, Option, none, some, arith, length,
  length-take, take, drop, get_or, Free, ◌==◌, if◌then◌else◌, Bytes,
}

abbrev pub buf_len : ℕ
buf_len = 80

-- `device_open` with the value of `already_open`: none for -EBUSY.
unfoldable pub device_open : Bool → Option ℕ × Bool
device_open true = (none, true)
device_open false = (some 0, true)

unfoldable pub device_release : Bool → ℕ × Bool
device_release already_open = (0, false)

-- The loop of `device_read`, over the array from the offset on.
unfoldable pub read_loop : ℕ → Bytes → Bytes
read_loop zero s = []
read_loop (suc n) [] = []
read_loop (suc n) (c ∷ s) = if c == 0 then [] else c ∷ read_loop n s

-- The bytes that the reader gets, and the new offset.
unfoldable pub device_read : ℕ → ℕ → Bytes → Bytes × ℕ
device_read len offset msg =
    if get_or msg offset 0 == 0
    then ([], 0)
    else (let got = read_loop len (drop offset msg) in (got, offset + length got))

-- The count that is returned, and the array: the rest of it is zero.
unfoldable pub device_write : Bytes → ℕ × Bytes
device_write buff = let msg = take (buf_len - 1) buff in (length msg, msg)

-- A program that reads `len` bytes at a time until a call gives none: all bytes, and the offset then.
abbrev pub read_whole : ℕ → ℕ → ℕ → Bytes → Bytes × ℕ
read_whole zero len offset msg = ([], offset)
read_whole (suc calls) len offset msg =
    let (got, offset') = device_read len offset msg in
    elim got [
      | [] ↦ ([], offset')
      | c ∷ s ↦ (let (rest, at) = read_whole calls len offset' msg in ((c ∷ s) ++ rest, at))
    ]

read_loop_whole : (n : ℕ) (s : Bytes) → Free 0 s → read_loop n s ≡ take n s
unfolding read_loop
read_loop_whole zero s h = refl
read_loop_whole (suc n) [] h = refl
read_loop_whole (suc n) (c ∷ s) h = rw (h.0, read_loop_whole n s h.1) refl

Free-drop : (n : ℕ) (s : Bytes) → Free 0 s → Free 0 (drop n s)
Free-drop zero s h = h
Free-drop (suc n) [] h = tt
Free-drop (suc n) (c ∷ s) h = Free-drop n s h.1

-- The byte at an offset within a text without zero bytes, and behind it.
get_or-Free : (n : ℕ) (s : Bytes) → Free 0 s → n < length s → (get_or s n 0 == 0) ≡ false
get_or-Free n [] h k = ground arith
get_or-Free zero (c ∷ s) h k = h.0
get_or-Free (suc n) (c ∷ s) h k = get_or-Free n s h.1 (omega arith)

get_or-end : (s : Bytes) → get_or s (length s) 0 ≡ 0
get_or-end [] = refl
get_or-end (c ∷ s) = get_or-end s

device_read-within :
    (len offset : ℕ) (msg : Bytes)
    → Free 0 msg
    → offset < length msg
    → device_read len offset msg
      ≡ (take len (drop offset msg), offset + length (take len (drop offset msg)))
unfolding device_read
device_read-within len offset msg h k =
    rw (get_or-Free offset msg h k, read_loop_whole len (drop offset msg) (Free-drop offset msg h))
      refl

device_read-end : (len : ℕ) (msg : Bytes) → device_read len (length msg) msg ≡ ([], 0)
unfolding device_read
device_read-end len msg = rw (get_or-end msg) refl

drop-nil : (n : ℕ) → drop {A = ℕ} n [] ≡ []
drop-nil zero = refl
drop-nil (suc n) = refl

drop-drop : (n m : ℕ) (s : Bytes) → drop (n + m) s ≡ drop m (drop n s)
drop-drop zero m s = ap (λ k. drop k s) (let e : 0 + m ≡ m = omega arith in e)
drop-drop (suc n) m [] = drop-nil (suc n + m) ∙ sym (drop-nil m)
drop-drop (suc n) m (c ∷ s) =
    let e : suc n + m ≡ suc (n + m) = omega arith in ap (λ k. drop k (c ∷ s)) e ∙ drop-drop n m s

-- What a call took, and what it left.
take-drop_taken : (k : ℕ) (s : Bytes) → take k s ++ drop (length (take k s)) s ≡ s
take-drop_taken zero s = refl
take-drop_taken (suc k) [] = refl
take-drop_taken (suc k) (c ∷ s) = ap (λ t. c ∷ t) (take-drop_taken k s)

List-cases : (s : Bytes) → (s ≡ []) ⊎ ((c : ℕ) × (t : Bytes) × (s ≡ c ∷ t))
List-cases [] = inl refl
List-cases (c ∷ t) = inr (c, t, refl)

-- What the calls that follow give, from the result of one.
abbrev after_call : ℕ → ℕ → Bytes → Bytes × ℕ → Bytes × ℕ
after_call calls len msg r = elim r.0 [
  | [] ↦ ([], r.1)
  | c ∷ s ↦ ((c ∷ s) ++ (read_whole calls len r.1 msg).0, (read_whole calls len r.1 msg).1)
]

read_whole-suc :
    (calls len offset : ℕ) (msg : Bytes)
    → read_whole (suc calls) len offset msg ≡ after_call calls len msg (device_read len offset msg)
read_whole-suc calls len offset msg = refl

read_whole-after :
    (calls len offset : ℕ) (r : Bytes × ℕ) (msg : Bytes)
    → device_read len offset msg ≡ r
    → read_whole (suc calls) len offset msg ≡ after_call calls len msg r
read_whole-after calls len offset r msg e =
    read_whole-suc calls len offset msg ∙ ap (after_call calls len msg) e

-- From any offset within the text, the calls give the rest of it, and the last one resets the offset.
read_whole-from :
    (calls len offset : ℕ) (msg : Bytes)
    → Free 0 msg
    → offset ≤ length msg
    → length msg < calls + offset
    → read_whole calls (suc len) offset msg ≡ (drop offset msg, 0)
read_whole-from zero len offset msg f within enough = absurd (omega arith)
read_whole-from (suc calls) len offset msg f within enough = elim (List-cases (drop offset msg)) [
  | inl e ↦
      (let z : offset ≡ length msg = omega (arith, within, length-drop offset msg, ap length e) in
        let stop : device_read (suc len) offset msg ≡ ([], 0) =
          subst (λ o. device_read (suc len) o msg ≡ ([], 0)) (sym z)
            (device_read-end (suc len) msg) in
        read_whole-after calls (suc len) offset ([], 0) msg stop ∙ ap (λ t. (t, 0)) (sym e))
  | inr (c, t, e) ↦
      (let size : length (drop offset msg) ≡ suc (length t) = ap length e in
        let inside : offset < length msg = omega (arith, size, length-drop offset msg) in
        let took = length (take len t) in
        let got : device_read (suc len) offset msg ≡ (c ∷ take len t, offset + suc took) =
          device_read-within (suc len) offset msg f inside
          ∙ ap (λ s. (take (suc len) s, offset + length (take (suc len) s))) e in
        let left : drop (offset + suc took) msg ≡ drop took t =
          drop-drop offset (suc took) msg ∙ ap (drop (suc took)) e in
        let rest =
          read_whole-from calls len (offset + suc took) msg f
            (omega (arith, length-take len t, size, length-drop offset msg))
            (omega (arith, enough)) in
        read_whole-after calls (suc len) offset (c ∷ take len t, offset + suc took) msg got
        ∙ rw (rest, left, e) (ap (λ s. (c ∷ s, 0)) (take-drop_taken len t)))
]

-- A text of at most 79 bytes and without zero bytes that is written to the device is read back whole, from
-- the start, in pieces of any positive size; the read that finds its end resets the offset. One call more
-- than the text has bytes is enough.
pub read_whole-device_write :
    (buff : Bytes) (len : ℕ)
    → Free 0 buff
    → length buff < buf_len
    → ((device_write buff).0 ≡ length buff)
      × (read_whole (suc (length buff)) (suc len) 0 (device_write buff).1 ≡ (buff, 0))
unfolding device_write
read_whole-device_write buff len f short =
    let whole : take (buf_len - 1) buff ≡ buff = take_of_le (buf_len - 1) buff (omega arith) in
    rw (whole) (refl, read_whole-from (suc (length buff)) len 0 buff f (omega arith) (omega arith))
