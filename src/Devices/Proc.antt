-- ===== src/Devices/Proc.antt =====
-- module5/task2/proc_module.c. `msg` is what the user wrote, in front of the terminator. Calls of
-- `copy_to_user` and `copy_from_user` succeed or fail as the argument `copies` says; one that fails is taken to copy nothing.
use eltex_practice.Base.{
  ℕ, ◌-◌, ◌<◌, ◌≤◌, min, ◌≡◌, refl, ap, Bool, true, false, [], ◌∷◌, Option, none, some, arith,
  length, take, leb, ltb, ◌==◌, if◌then◌else◌, Bytes, Bool-cases, inl, inr,
}

abbrev pub msg_size : ℕ
msg_size = 128

pub record Proc : Type 0 where
  pub msg : Bytes
  pub len : ℕ
  pub temp : ℕ

-- What the call returns: the count, or none for -EFAULT.
unfoldable pub write_proc : Bool → Bytes → Proc → Option ℕ × Proc
write_proc copies buf p =
    let to_copy = if leb msg_size (length buf) then msg_size - 1 else length buf in
    if copies
    then (some (length buf), record { msg = take to_copy buf; len = to_copy; temp = to_copy })
    else (none, p)

-- The bytes that the reader gets, or none for -EFAULT.
unfoldable pub read_proc : Bool → ℕ → Proc → Option Bytes × Proc
read_proc copies count p =
    let n = if ltb p.temp count then p.temp else count in
    let p' : Proc = record { msg = p.msg; len = p.len; temp = p.temp - n } in
    if copies
    then (
      some (take n p.msg),
      (if n == 0 then record { msg = p.msg; len = p.len; temp = p.len } else p'),
    )
    else (none, p')

take-length : (s : Bytes) → take (length s) s ≡ s
take-length [] = refl
take-length (c ∷ s) = ap (λ t. c ∷ t) (take-length s)

abbrev pub holding : Bytes → ℕ → Proc
holding buf temp = record { msg = buf; len = length buf; temp = temp }

write_proc_short :
    (buf : Bytes) (p : Proc)
    → length buf < msg_size
    → write_proc true buf p ≡ (some (length buf), holding buf (length buf))
unfolding write_proc
write_proc_short buf p h =
    let t : leb msg_size (length buf) ≡ false = ground arith in rw (t, take-length buf) refl

read_proc_rest :
    (buf : Bytes) (count temp : ℕ)
    → 0 < count
    → 0 < temp
    → read_proc true count (holding buf temp)
      ≡ (some (take (min count temp) buf), holding buf (temp - min count temp))
unfolding read_proc
read_proc_rest buf count temp c t = elim (Bool-cases (ltb temp count)) [
  | inl e ↦
      (let m : min count temp ≡ temp = ground arith in
        let z : (temp == 0) ≡ false = ground arith in rw (e, z, m) refl)
  | inr e ↦
      (let m : min count temp ≡ count = ground arith in
        let z : (count == 0) ≡ false = ground arith in rw (e, z, m) refl)
]

read_proc_end :
    (buf : Bytes) (count : ℕ)
    → read_proc true count (holding buf 0) ≡ (some [], holding buf (length buf))
unfolding read_proc
read_proc_end buf count = elim (Bool-cases (ltb 0 count)) [
  | inl e ↦ rw (e) refl
  | inr e ↦ (let z : count ≡ 0 = ground arith in rw (e, z) refl)
]

-- A text of 1 to 127 bytes is written whole and read back by one call with room for it; the next call gives
-- its end, and rewinds the file.
pub read_proc-write_proc :
    (buf : Bytes) (count : ℕ) (p : Proc)
    → length buf < msg_size
    → 0 < length buf
    → length buf ≤ count
    → let written = (write_proc true buf p).1 in
      let after = (read_proc true count written).1 in
      ((write_proc true buf p).0 ≡ some (length buf))
      × ((read_proc true count written).0 ≡ some buf)
      × (read_proc true count after ≡ (some [], written))
read_proc-write_proc buf count p h pos enough =
    let m : min count (length buf) ≡ length buf = omega arith in
    let z : length buf - length buf ≡ 0 = omega arith in
    rw
      (
        write_proc_short buf p h,
        read_proc_rest buf count (length buf) (omega arith) pos,
        m,
        z,
        read_proc_end buf count,
      )
      (refl, ap some (take-length buf), refl)

-- A reader with less room than the text, which has at most 127 bytes, gets the beginning of the text again
-- in its second call, not what follows.
pub read_proc_twice :
    (buf : Bytes) (count : ℕ) (p : Proc)
    → length buf < msg_size
    → 0 < count
    → count < length buf
    → let written = (write_proc true buf p).1 in
      let after = (read_proc true count written).1 in
      ((read_proc true count written).0 ≡ some (take count buf))
      × ((read_proc true count after).0 ≡ some (take (min count (length buf - count)) buf))
read_proc_twice buf count p h pos short =
    let m : min count (length buf) ≡ count = omega arith in
    rw
      (
        write_proc_short buf p h,
        read_proc_rest buf count (length buf) pos (omega arith),
        m,
        read_proc_rest buf count (length buf - count) pos (omega arith),
      )
      (refl, refl)
