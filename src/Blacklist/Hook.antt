-- ===== src/Blacklist/Hook.antt =====
-- module5/task6/nf.c. The state is `blacklist_ips`, the addresses in list order; a spin lock makes every
-- walk of the list one step. What the kernel does is passed in: `in4_pton`, a parameter, whether
-- `kmalloc` and `copy_from_user` succeed, and the results of the registrations.
use eltex_practice.Base.{
  ℕ, zero, suc, ◌-◌, ◌/◌, ◌%◌, Bool, true, false, ◌||◌, List, [], ◌∷◌, ◌++◌, Option, none, some,
  length, take, drop, any, leb, ◌==◌, if◌then◌else◌, Bytes, show,
}

pub data Verdict : Type 0 where
  nf_accept nf_drop : Verdict

abbrev pub listed : List ℕ → ℕ → Bool
listed ips ip = any (λ entry. entry == ip) ips

-- The packet is none where there is no `skb` or no IP header; else it is its destination address.
unfoldable pub hook_func_in : List ℕ → Option ℕ → Verdict
hook_func_in ips none = nf_accept
hook_func_in ips (some daddr) = if listed ips daddr then nf_drop else nf_accept

-- What the functions return: a count, a named error, or the error of a call, by its code.
pub data Result : Type 0 where
  count : ℕ → Result
  efault einval enomem : Result
  error : ℕ → Result

abbrev pub is_trailing : ℕ → Bool
is_trailing c = (c == 10) || (c == 13) || (c == 32)

-- Trailing newlines, returns and spaces go.
unfoldable pub trim : Bytes → Bytes
trim [] = []
trim (c ∷ s) = elim (trim s) [ [] ↦ if is_trailing c then [] else c ∷ [] | d ∷ t ↦ c ∷ d ∷ t ]

-- `strscpy(ip_str, kbuf + 1, 32)`: up to the terminator, and 31 bytes at most.
unfoldable pub c_string : ℕ → Bytes → Bytes
c_string n [] = []
c_string zero (c ∷ s) = []
c_string (suc n) (c ∷ s) = if c == 0 then [] else c ∷ c_string n s

unfoldable pub add_ip : ℕ → List ℕ → List ℕ
add_ip ip ips = if listed ips ip then ips else ips ++ ip ∷ []

-- The first entry of the address goes.
unfoldable pub remove_ip : ℕ → List ℕ → List ℕ
remove_ip ip [] = []
remove_ip ip (entry ∷ ips) = if entry == ip then ips else entry ∷ remove_ip ip ips

-- What the environment of one write does: whether `copy_from_user` and `kmalloc` succeed.
pub record Env : Type 0 where
  pub copies : Bool
  pub allocates : Bool

-- From the first byte and the address that was read to the end of `blacklist_write`.
unfoldable pub act : Env → ℕ → ℕ → ℕ → List ℕ → Result × List ℕ
act env action ip len ips =
    if action == 43
    then (if env.allocates then (count len, add_ip ip ips) else (enomem, ips))
    else if action == 45
    then (count len, remove_ip ip ips)
    else (einval, ips)

module _ (in4_pton : Bytes → Option ℕ) where
  -- `blacklist_write` after the copy: `kbuf` is the text and `len` the value of `count`.
  unfoldable pub command : Env → Bytes → ℕ → List ℕ → Result × List ℕ
  command env [] len ips = (einval, ips)
  command env (action ∷ []) len ips = (einval, ips)
  command env (action ∷ c ∷ rest) len ips = elim (in4_pton (c_string 31 (c ∷ rest))) [
    | none ↦ (einval, ips)
    | some ip ↦ act env action ip len ips
  ]

  unfoldable pub blacklist_write : Env → Bytes → List ℕ → Result × List ℕ
  blacklist_write env buf ips =
      if env.copies then command env (trim (take 63 buf)) (length buf) ips else (efault, ips)

-- `%pI4` and a newline. An address is a `__be32`: its lowest byte in memory comes first.
abbrev pub line : ℕ → Bytes
line ip =
    show (ip % 256)
    ++ 46 ∷ show (ip / 256 % 256)
    ++ 46 ∷ show (ip / 65536 % 256)
    ++ 46 ∷ show (ip / 16777216 % 256)
    ++ 10 ∷ []

-- The loop of `blacklist_read`; `kbuf` is what it printed so far.
unfoldable pub print_entries : Bytes → List ℕ → Bytes
print_entries kbuf [] = kbuf
print_entries kbuf (ip ∷ ips) =
    let kbuf' = kbuf ++ take (4095 - length kbuf) (line ip) in
    let rest = print_entries kbuf' ips in if leb (4096 - 32) (length kbuf') then kbuf' else rest

-- `blacklist_read` and `simple_read_from_buffer`: the bytes from `ppos` on, or none without memory.
unfoldable pub blacklist_read : Bool → ℕ → ℕ → List ℕ → Option Bytes
blacklist_read allocates len ppos ips =
    if allocates then some (take len (drop ppos (print_entries [] ips))) else none

-- What the module has registered.
pub record Registered : Type 0 where
  pub proc_entry : Bool
  pub hook : Bool

-- `proc_create` and `nf_register_net_hook` may fail, the latter with the code `ret`.
unfoldable pub init_main : Bool → ℕ → Result × Registered
init_main created ret =
    if created
    then (if ret == 0
        then (count 0, record { proc_entry = true; hook = true })
        else (error ret, record { proc_entry = false; hook = false }))
    else (enomem, record { proc_entry = false; hook = false })

unfoldable pub free_entries : List ℕ → List ℕ
free_entries [] = []
free_entries (entry ∷ ips) = free_entries ips

unfoldable pub cleanup_main : Registered → List ℕ → Registered × List ℕ
cleanup_main registered ips = (record { proc_entry = false; hook = false }, free_entries ips)
