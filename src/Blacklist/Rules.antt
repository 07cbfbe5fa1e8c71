-- ===== src/Blacklist/Rules.antt =====
-- What the commands of module5/task6/nf.c do to the verdicts of the hook, and what its file shows.
use eltex_practice.Base.{
  ℕ, ◌≡◌, refl, sym, subst, Bool, true, false, ◌&&◌, ◌||◌, not, List, [], ◌∷◌, ◌++◌, Option, some,
  arith, length, take, any-append, ◌==◌, if◌then◌else◌, Bytes, Bool-cases, inl, inr, Option-cases,
}
use eltex_practice.Blacklist.Hook.{
  nf_accept, nf_drop, listed, hook_func_in, add_ip, remove_ip, Env, act, command, blacklist_write,
  trim, c_string,
}

-- No address is in the list twice.
abbrev pub Distinct : List ℕ → Type 0
Distinct [] = Unit {0}
Distinct (ip ∷ ips) = (listed ips ip ≡ false) × Distinct ips

listed-same : (ip d : ℕ) (ips : List ℕ) (b : Bool) → d ≡ ip → listed ips ip ≡ b → listed ips d ≡ b
listed-same ip d ips b q e = subst (λ x. listed ips x ≡ b) (sym q) e

listed-add_ip : (ip d : ℕ) (ips : List ℕ) → listed (add_ip ip ips) d ≡ ((d == ip) || listed ips d)
unfolding add_ip
listed-add_ip ip d ips = elim (Bool-cases (listed ips ip)) [
  | inl e ↦ rw (e) (elim (Bool-cases (d == ip)) [
    | inl t ↦ rw (t) (listed-same ip d ips true (ground arith) e)
    | inr t ↦ rw (t) refl
  ])
  | inr e ↦ rw (e) (ground (arith, any-append (λ entry. entry == d) ips (ip ∷ [])))
]

listed-remove_ip :
    (ip d : ℕ) (ips : List ℕ)
    → Distinct ips
    → listed (remove_ip ip ips) d ≡ (not (d == ip) && listed ips d)
unfolding remove_ip
listed-remove_ip ip d [] h = ground arith
listed-remove_ip ip d (entry ∷ ips) h = elim (Bool-cases (entry == ip)) [
  | inl e ↦ elim (Bool-cases (d == ip)) [
    | inl t ↦ rw (e, t) (listed-same entry d ips false (ground arith) h.0)
    | inr t ↦ (let u : (entry == d) ≡ false = ground arith in rw (e, t, u) refl)
  ]
  | inr e ↦ ground (arith, listed-remove_ip ip d ips h.1)
]

Distinct-append :
    (ip : ℕ) (ips : List ℕ) → Distinct ips → listed ips ip ≡ false → Distinct (ips ++ ip ∷ [])
Distinct-append ip [] h e = (refl, tt)
Distinct-append ip (entry ∷ ips) h e = (
  ground (arith, any-append (λ x. x == entry) ips (ip ∷ []), h.0),
  Distinct-append ip ips h.1 (ground arith),
)

pub Distinct-add_ip : (ip : ℕ) (ips : List ℕ) → Distinct ips → Distinct (add_ip ip ips)
unfolding add_ip
Distinct-add_ip ip ips h = elim (Bool-cases (listed ips ip)) [
  | inl e ↦ rw (e) h
  | inr e ↦ rw (e) (Distinct-append ip ips h e)
]

listed-remove_ip-le :
    (ip d : ℕ) (ips : List ℕ) → listed ips d ≡ false → listed (remove_ip ip ips) d ≡ false
unfolding remove_ip
listed-remove_ip-le ip d [] h = refl
listed-remove_ip-le ip d (entry ∷ ips) h = ground (arith, listed-remove_ip-le ip d ips)

Distinct-remove_ip : (ip : ℕ) (ips : List ℕ) → Distinct ips → Distinct (remove_ip ip ips)
unfolding remove_ip
Distinct-remove_ip ip [] h = tt
Distinct-remove_ip ip (entry ∷ ips) h = elim (Bool-cases (entry == ip)) [
  | inl e ↦ rw (e) h.1
  | inr e ↦ rw (e) (listed-remove_ip-le ip entry ips h.0, Distinct-remove_ip ip ips h.1)
]

Distinct-act :
    (env : Env) (action ip len : ℕ) (ips : List ℕ)
    → Distinct ips
    → Distinct (act env action ip len ips).1
unfolding act
Distinct-act env action ip len ips h =
    ground (arith, h, Distinct-add_ip ip ips h, Distinct-remove_ip ip ips h)

-- What a packet meets after a command: the address of the command is blocked or free, and nothing else
-- changes.
pub hook-add_ip :
    (ip d : ℕ) (ips : List ℕ)
    → hook_func_in (add_ip ip ips) (some d)
      ≡ (if d == ip then nf_drop else hook_func_in ips (some d))
unfolding hook_func_in
hook-add_ip ip d ips = rw (listed-add_ip ip d ips) (ground arith)

pub hook-remove_ip :
    (ip d : ℕ) (ips : List ℕ)
    → Distinct ips
    → hook_func_in (remove_ip ip ips) (some d)
      ≡ (if d == ip then nf_accept else hook_func_in ips (some d))
unfolding hook_func_in
hook-remove_ip ip d ips h = rw (listed-remove_ip ip d ips h) (ground arith)

module _ (in4_pton : Bytes → Option ℕ) where
  Distinct-command :
      (env : Env) (text : Bytes) (len : ℕ) (ips : List ℕ)
      → Distinct ips
      → Distinct (command in4_pton env text len ips).1
  unfolding command
  Distinct-command env [] len ips h = h
  Distinct-command env (a ∷ []) len ips h = h
  Distinct-command env (a ∷ c ∷ rest) len ips h =
      elim (Option-cases (in4_pton (c_string 31 (c ∷ rest)))) [
        | inl e ↦ rw (e, command) h
        | inr (ip, e) ↦ rw (e, command) (Distinct-act env a ip len ips h)
      ]

  pub Distinct-blacklist_write :
      (env : Env) (buf : Bytes) (ips : List ℕ)
      → Distinct ips
      → Distinct (blacklist_write in4_pton env buf ips).1
  unfolding blacklist_write command act
  Distinct-blacklist_write env buf ips h = elim (Bool-cases env.copies) [
    | inl e ↦ rw (e) (Distinct-command env (trim (take 63 buf)) (length buf) ips h)
    | inr e ↦ rw (e) h
  ]

  -- The list after any sequence of writes, from the empty list of a module that was just loaded.
  abbrev pub after_writes : List (Env × Bytes) → List ℕ → List ℕ
  after_writes [] ips = ips
  after_writes ((env, buf) ∷ writes) ips =
      after_writes writes (blacklist_write in4_pton env buf ips).1

  -- Whatever is written, the list never holds an address twice, if it did not at first.
  pub after_writes-Distinct :
      (writes : List (Env × Bytes)) (ips : List ℕ)
      → Distinct ips
      → Distinct (after_writes writes ips)
  after_writes-Distinct [] ips h = h
  after_writes-Distinct ((env, buf) ∷ writes) ips h =
      after_writes-Distinct writes (blacklist_write in4_pton env buf ips).1
        (Distinct-blacklist_write env buf ips h)
