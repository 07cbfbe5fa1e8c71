-- ===== src/Blacklist/Commands.antt =====
-- From the text that is written to the file in /proc to the verdict of the hook, and the text that is
-- read back: module5/task6/nf.c.
use eltex_practice.Base.{
  take_of_le, ℕ, zero, suc, ◌+◌, ◌-◌, ◌/◌, ◌%◌, ◌<◌, ◌≤◌, ◌≡◌, refl, ap, sym, ◌∙◌, true, false,
  List, [], ◌∷◌, ◌++◌, Option, some, arith, length, length-append, take, leb, ◌==◌, if◌then◌else◌,
  Bytes, show, Bool-cases, inl, inr, append_assoc, append-nil, length-show_byte, ◌⊎◌,
}
use eltex_practice.Blacklist.Hook.{
  nf_accept, nf_drop, hook_func_in, Env, act, command, blacklist_write, trim, c_string, line,
  print_entries, is_trailing,
}
use eltex_practice.Blacklist.Rules.{Distinct, hook-add_ip, hook-remove_ip}

-- Neither a byte that is trimmed nor a terminator.
abbrev pub Clean : Bytes → Type 0
Clean [] = Unit {0}
Clean (c ∷ s) = (is_trailing c ≡ false) × (((c == 0) ≡ false) × Clean s)

trim-line : (s : Bytes) → Clean s → trim (s ++ 10 ∷ []) ≡ s
unfolding trim
trim-line [] h = refl
trim-line (c ∷ []) h = rw (h.0) refl
trim-line (c ∷ d ∷ s) h = rw (trim-line (d ∷ s) h.1.1) refl

c_string_whole : (n : ℕ) (s : Bytes) → Clean s → length s ≤ n → c_string n s ≡ s
unfolding c_string
c_string_whole n [] h k = refl
c_string_whole zero (c ∷ s) h k = ground arith
c_string_whole (suc n) (c ∷ s) h k = rw (h.1.0, c_string_whole n s h.1.1 (omega arith)) refl

abbrev pub works : Env
works = record { copies = true; allocates = true }

module _ (in4_pton : Bytes → Option ℕ) where
  command-Clean :
      (action d ip len : ℕ) (addr : Bytes) (ips : List ℕ)
      → Clean (d ∷ addr)
      → length (d ∷ addr) ≤ 31
      → in4_pton (d ∷ addr) ≡ some ip
      → command in4_pton works (action ∷ d ∷ addr) len ips ≡ act works action ip len ips
  unfolding command
  command-Clean action d ip len addr ips h k e =
      rw (c_string_whole 31 (d ∷ addr) h k, e, command) refl

  -- A line that is written, with the newline that `echo` adds.
  write-line :
      (action d ip : ℕ) (addr : Bytes) (ips : List ℕ)
      → is_trailing action ≡ false
      → (action == 0) ≡ false
      → Clean (d ∷ addr)
      → length (d ∷ addr) ≤ 31
      → in4_pton (d ∷ addr) ≡ some ip
      → blacklist_write in4_pton works ((action ∷ d ∷ addr) ++ 10 ∷ []) ips
        ≡ act works action ip (length addr + 3) ips
  unfolding blacklist_write
  write-line action d ip addr ips t z h k e =
      let short : take 63 ((action ∷ d ∷ addr) ++ 10 ∷ []) ≡ (action ∷ d ∷ addr) ++ 10 ∷ [] =
        take_of_le 63 ((action ∷ d ∷ addr) ++ 10 ∷ [])
          (omega (arith, length-append addr (10 ∷ []))) in
      let n : length addr + 3 ≡ length ((action ∷ d ∷ addr) ++ 10 ∷ []) =
        omega (arith, length-append addr (10 ∷ [])) in
      rw (short, trim-line (action ∷ d ∷ addr) (t, (z, h)), n)
        (command-Clean action d ip (length ((action ∷ d ∷ addr) ++ 10 ∷ [])) addr ips h k e)

  -- A written line "+address" makes the hook drop the packets to that address and a line "-address" makes
  -- it accept them; packets to other addresses meet the verdict they met before. The text after the
  -- sign is at most 31 bytes without blanks and terminators, `in4_pton` reads an address from it, memory
  -- and user buffer are there, and the list holds no address twice.
  pub hook-blacklist_write :
      (d ip : ℕ) (addr : Bytes) (ips : List ℕ)
      → Clean (d ∷ addr)
      → length (d ∷ addr) ≤ 31
      → in4_pton (d ∷ addr) ≡ some ip
      → Distinct ips
      → (q : ℕ)
      → (hook_func_in (blacklist_write in4_pton works ((43 ∷ d ∷ addr) ++ 10 ∷ []) ips).1 (some q)
          ≡ (if q == ip then nf_drop else hook_func_in ips (some q)))
        × (hook_func_in (blacklist_write in4_pton works ((45 ∷ d ∷ addr) ++ 10 ∷ []) ips).1 (some q)
            ≡ (if q == ip then nf_accept else hook_func_in ips (some q)))
  unfolding act
  hook-blacklist_write d ip addr ips h k e distinct q = (
    rw (write-line 43 d ip addr ips refl refl h k e) (hook-add_ip ip q ips),
    rw (write-line 45 d ip addr ips refl refl h k e) (hook-remove_ip ip q ips distinct),
  )

abbrev pub lines : List ℕ → Bytes
lines [] = []
lines (ip ∷ ips) = line ip ++ lines ips

map_left : {A B C : Type 0} → (A → B) → A ⊎ C → B ⊎ C
map_left f (inl a) = inl (f a)
map_left f (inr c) = inr c

print_entries-nil : (kbuf : Bytes) → print_entries kbuf [] ≡ kbuf ++ []
unfolding print_entries
print_entries-nil kbuf = sym (append-nil kbuf)

length-dotted :
    (a b c d : Bytes)
    → length (a ++ 46 ∷ b ++ 46 ∷ c ++ 46 ∷ d ++ 10 ∷ [])
      ≡ length a + length b + length c + length d + 4
length-dotted a b c d = omega (
  arith,
  length-append (a ++ 46 ∷ b ++ 46 ∷ c ++ 46 ∷ d) (10 ∷ []),
  length-append (a ++ 46 ∷ b ++ 46 ∷ c) (46 ∷ d),
  length-append (a ++ 46 ∷ b) (46 ∷ c),
  length-append a (46 ∷ b),
)

length-line : (ip : ℕ) → length (line ip) ≤ 16
length-line ip =
    let byte : (n : ℕ) → length (show (n % 256)) ≤ 3 =
      λ n. length-show_byte (n % 256) (omega arith) in
    let e : length (line ip)
        ≡ length (show (ip % 256))
          + length (show (ip / 256 % 256))
          + length (show (ip / 65536 % 256))
          + length (show (ip / 16777216 % 256))
          + 4 =
      length-dotted (show (ip % 256)) (show (ip / 256 % 256)) (show (ip / 65536 % 256))
        (show (ip / 16777216 % 256)) in
    omega (arith, e, byte ip, byte (ip / 256), byte (ip / 65536), byte (ip / 16777216))

-- One round of the loop: a line always fits whole.
print_entries-cons :
    (kbuf : Bytes) (ip : ℕ) (ips : List ℕ)
    → length kbuf < 4064
    → print_entries kbuf (ip ∷ ips) ≡ (
        if leb 4064 (length (kbuf ++ line ip))
        then kbuf ++ line ip
        else print_entries (kbuf ++ line ip) ips)
unfolding print_entries
print_entries-cons kbuf ip ips h =
    let short : take (4095 - length kbuf) (line ip) ≡ line ip =
      take_of_le (4095 - length kbuf) (line ip) (omega (arith, length-line ip)) in
    rw (short) refl

-- What is printed is a sequence of whole lines, those of the first entries of the list, on top of what is
-- there: either of all entries, or of so many that the text has at least 4064 bytes.
pub print_entries-lines :
    (kbuf : Bytes) (ips : List ℕ)
    → length kbuf < 4064
    → (k : ℕ) × (print_entries kbuf ips ≡ kbuf ++ lines (take k ips))
      × ((take k ips ≡ ips) ⊎ (4064 ≤ length (print_entries kbuf ips)))
print_entries-lines kbuf [] h = (0, print_entries-nil kbuf, inl refl)
print_entries-lines kbuf (ip ∷ ips) h = elim (Bool-cases (leb 4064 (length (kbuf ++ line ip)))) [
  | inl e ↦
      rw (print_entries-cons kbuf ip ips h, e)
        (1, ap (λ t. kbuf ++ t) (sym (append-nil (line ip))), inr (ground arith))
  | inr e ↦
      (let (k, p, o) = print_entries-lines (kbuf ++ line ip) ips (ground arith) in
        rw (print_entries-cons kbuf ip ips h, e)
          (
            suc k,
            p ∙ append_assoc kbuf (line ip) (lines (take k ips)),
            map_left (ap (λ t. ip ∷ t)) o,
          ))
]
