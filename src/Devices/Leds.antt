-- ===== src/Devices/Leds.antt =====
-- The blinking keyboard lights of module5/task3/kbleds_sysfs.c: the attribute in sysfs that sets the mask,
-- the timer that toggles the lights, loading and unloading.
use eltex_practice.Base.{
  ℕ, ◌≤◌, ◌≡◌, ◌⊎◌, inl, inr, refl, Bool, true, false, not, List, [], ◌∷◌, ◌++◌, Option, none, some,
  Bytes, arith, show, ltb, length, ◌==◌, if◌then◌else◌, Bool-cases, All,
}
use eltex_practice.Resources.{timer, kobject, attribute, Effect, takes, frees, Released}

abbrev pub restore_leds : ℕ
restore_leds = 0xFF

-- `_kbledstatus` and `test`.
pub record Leds : Type 0 where
  pub status : ℕ
  pub test : ℕ

abbrev pub loaded : Leds
loaded = record { status = 0; test = 3 }

-- The status that the timer sets and hands to KDSETLED.
unfoldable pub my_timer_func : Leds → Leds
my_timer_func s = record {
  status = if s.status == s.test then restore_leds else s.test;
  test = s.test;
}

unfoldable pub foo_show : Leds → Bytes
foo_show s = show s.test ++ 10 ∷ []

abbrev pub IsMask : ℕ → Type 0
IsMask n = (n ≤ 7) ⊎ (n ≡ restore_leds)

-- An `int`: a number, or less than 0.
pub data Parsed : Type 0 where
  nonneg : ℕ → Parsed
  negative : Parsed

-- The count that is returned, none for -EINVAL; `kstrtoint` gives none for an error.
module _ (kstrtoint : Bytes → Option Parsed) where
  unfoldable pub foo_store : Bytes → Leds → Option ℕ × Leds
  foo_store buf s = elim (kstrtoint buf) [
    | none ↦ (none, s)
    | some negative ↦ (none, s)
    | some (nonneg temp_val) ↦
        if ltb 7 temp_val
        then (none, s)
        else (some (length buf), record { status = s.status; test = temp_val })
  ]

  -- What happens to the loaded module, and the values that the lights get.
  unfoldable pub blink : List (Option Bytes) → Leds → List ℕ
  blink [] s = []
  blink (none ∷ events) s = (my_timer_func s).status ∷ blink events (my_timer_func s)
  blink (some buf ∷ events) s = blink events (foo_store buf s).1

  foo_store-bounded : (buf : Bytes) (s : Leds) → s.test ≤ 7 → (foo_store buf s).1.test ≤ 7
  unfolding foo_store
  foo_store-bounded buf s h =
      elim (kstrtoint buf)
        as (λ r.
          (elim r as (λ _. Option ℕ × Leds) [
            | none ↦ (none, s)
            | some negative ↦ (none, s)
            | some (nonneg temp_val) ↦
                if ltb 7 temp_val
                then (none, s)
                else (some (length buf), record { status = s.status; test = temp_val })
          ]).1.test
          ≤ 7) [
            | none ↦ h
            | some negative ↦ h
            | some (nonneg n) ↦ elim (Bool-cases (ltb 7 n)) [
              | inl e ↦ rw (e) h
              | inr e ↦ rw (e) (ground arith)
            ]
          ]

  my_timer_func-IsMask : (s : Leds) → s.test ≤ 7 → IsMask (my_timer_func s).status
  unfolding my_timer_func
  my_timer_func-IsMask s h = elim (Bool-cases (s.status == s.test)) [
    | inl e ↦ rw (e) (inr refl)
    | inr e ↦ rw (e) (inl h)
  ]

  -- From a mask of three bits on, whatever is written to the attribute, the lights get masks of three bits and the
  -- value that restores them.
  pub blink-IsMask :
      (events : List (Option Bytes)) (s : Leds) → s.test ≤ 7 → All IsMask (blink events s)
  unfolding blink my_timer_func
  blink-IsMask [] s h = tt
  blink-IsMask (none ∷ events) s h =
      (my_timer_func-IsMask s h, blink-IsMask events (my_timer_func s) h)
  blink-IsMask (some buf ∷ events) s h =
      blink-IsMask events (foo_store buf s).1 (foo_store-bounded buf s h)

-- Of two ticks in a row one shows the mask and the other restores the lights.
pub my_timer_func-alternates :
    (s : Leds)
    → s.test ≤ 7
    → let one = (my_timer_func s).status in
      let two = (my_timer_func (my_timer_func s)).status in
      ((one ≡ s.test) × (two ≡ restore_leds)) ⊎ ((one ≡ restore_leds) × (two ≡ s.test))
unfolding my_timer_func
my_timer_func-alternates s h =
    let same : (s.test == s.test) ≡ true = ground arith in
    let other : (restore_leds == s.test) ≡ false = ground arith in
    elim (Bool-cases (s.status == s.test)) [
      | inl e ↦ rw (e) (rw (other) (inr (refl, refl)))
      | inr e ↦ rw (e) (rw (same) (inl (refl, refl)))
    ]

-- Loading: whether it succeeds, and what it leaves set up. The console must have a terminal with a driver.
unfoldable pub kbleds_sysfs_init : Bool → Bool → Bool → Bool → Bool × List Effect
kbleds_sysfs_init has_tty has_driver kobject_works file_works =
    if not has_tty
    then (false, [])
    else if not has_driver
    then (false, [])
    else if not kobject_works
    then (false, takes timer ∷ frees timer ∷ [])
    else if not file_works
    then (false, takes timer ∷ takes kobject ∷ frees kobject ∷ frees timer ∷ [])
    else (true, takes timer ∷ takes kobject ∷ takes attribute ∷ [])

-- Unloading, without the last KDSETLED.
abbrev pub kbleds_sysfs_exit : List Effect
kbleds_sysfs_exit = frees timer ∷ frees attribute ∷ frees kobject ∷ []

-- Loading that fails leaves nothing set up, and unloading takes down what loading has set up.
pub kbleds_sysfs-Released :
    (has_tty has_driver kobject_works file_works : Bool)
    → let run = kbleds_sysfs_init has_tty has_driver kobject_works file_works in
      Released (run.1 ++ (if run.0 then kbleds_sysfs_exit else []))
unfolding kbleds_sysfs_init
kbleds_sysfs-Released false d k f = tt
kbleds_sysfs-Released true false k f = tt
kbleds_sysfs-Released true true false f = (inl refl, tt)
kbleds_sysfs-Released true true true false = (inr (inl refl), (inl refl, tt))
kbleds_sysfs-Released true true true true = (inl refl, (inr (inr (inl refl)), (inr (inl refl), tt)))
