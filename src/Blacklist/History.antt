-- ===== src/Blacklist/History.antt =====
-- The blacklist after any history of commands: module5/task6/nf.c as those who write to it see it.
use eltex_practice.Base.{
  ℕ, ◌≤◌, ◌≡◌, refl, ap, ◌∙◌, Bool, true, false, List, [], ◌∷◌, ◌++◌, map, Option, some, length,
  ◌==◌, if◌then◌else◌, Bytes, All,
}
use eltex_practice.Blacklist.Hook.{Verdict, nf_accept, nf_drop, hook_func_in, Env, blacklist_write}
use eltex_practice.Blacklist.Rules.{Distinct, after_writes, Distinct-blacklist_write}
use eltex_practice.Blacklist.Commands.{Clean, works, hook-blacklist_write}

-- A command: whether it adds or removes, the text of its address, and the address.
pub record Order : Type 0 where
  pub adds : Bool
  pub first : ℕ
  pub rest : Bytes
  pub ip : ℕ

-- The line that is written, with the newline that `echo` adds.
abbrev pub written_line : Order → Env × Bytes
written_line o = (works, ((if o.adds then 43 else 45) ∷ o.first ∷ o.rest) ++ 10 ∷ [])

-- The verdict that the last command about an address sets.
abbrev pub verdict : List Order → ℕ → Verdict → Verdict
verdict [] q v = v
verdict (o ∷ orders) q v =
    verdict orders q (if q == o.ip then (if o.adds then nf_drop else nf_accept) else v)

module _ (in4_pton : Bytes → Option ℕ) where
  -- At most 31 bytes without blanks and terminators, from which the address is read.
  pub record IsOrder (o : Order) : Type 0 where
    pub clean : Clean (o.first ∷ o.rest)
    pub short : length (o.first ∷ o.rest) ≤ 31
    pub address : in4_pton (o.first ∷ o.rest) ≡ some o.ip

  hook-order :
      (o : Order) (ips : List ℕ) (q : ℕ)
      → IsOrder o
      → Distinct ips
      → hook_func_in (blacklist_write in4_pton (written_line o).0 (written_line o).1 ips).1 (some q)
        ≡ (if q == o.ip then (if o.adds then nf_drop else nf_accept) else hook_func_in ips (some q))
  hook-order o ips q v d = both o.adds
    where
      both :
          (adds : Bool)
          → hook_func_in
              (blacklist_write in4_pton works
                (((if adds then 43 else 45) ∷ o.first ∷ o.rest) ++ 10 ∷ [])
                ips).1
              (some q)
            ≡ (if q == o.ip
                then (if adds then nf_drop else nf_accept)
                else hook_func_in ips (some q))
      both true =
          (hook-blacklist_write in4_pton o.first o.ip o.rest ips v.clean v.short v.address d q).0
      both false =
          (hook-blacklist_write in4_pton o.first o.ip o.rest ips v.clean v.short v.address d q).1

  -- After any commands that are written one after another, a packet is dropped exactly if the last command about
  -- its address added it; where there was none it meets the verdict of before. Each address is a text of at
  -- most 31 bytes that `in4_pton` reads, memory and user buffer are there, and the list held no address twice.
  pub after_writes-verdict :
      (orders : List Order) (ips : List ℕ) (q : ℕ)
      → All IsOrder orders
      → Distinct ips
      → hook_func_in (after_writes in4_pton (map written_line orders) ips) (some q)
        ≡ verdict orders q (hook_func_in ips (some q))
  after_writes-verdict [] ips q h d = refl
  after_writes-verdict (o ∷ orders) ips q h d =
      after_writes-verdict orders
        (blacklist_write in4_pton (written_line o).0 (written_line o).1 ips).1 q h.1
        (Distinct-blacklist_write in4_pton (written_line o).0 (written_line o).1 ips d)
      ∙ ap (verdict orders q) (hook-order o ips q h.0 d)
