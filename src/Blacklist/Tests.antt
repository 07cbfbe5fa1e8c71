-- ===== src/Blacklist/Tests.antt =====
-- Runs of the blacklist (module5/task6) on concrete texts. `dotted` reads one address, as `in4_pton` may.
use eltex_practice.Base.{
  ℕ, ◌≡◌, ◌≤◌, refl, Bytes, List, [], ◌∷◌, Option, none, some, arith, ◌⊎◌, if◌then◌else◌, length,
  take, codes, str_eq, map, Bool, true, false,
}
use eltex_practice.Blacklist.Hook.{nf_drop, hook_func_in, print_entries}
use eltex_practice.Blacklist.Rules.{Distinct, after_writes, after_writes-Distinct}
use eltex_practice.Blacklist.Commands.{Clean, works, lines, print_entries-lines}
use eltex_practice.Blacklist.History.{Order, IsOrder, written_line, after_writes-verdict}

abbrev dotted : Bytes → Option ℕ
dotted s = if str_eq s (codes "8.8.8.8") then some 134744072 else none

clean : Clean (codes "8.8.8.8")
clean = (
  refl,
  (
    refl,
    (
      refl,
      (refl, (refl, (refl, (refl, (refl, (refl, (refl, (refl, (refl, (refl, (refl, tt))))))))))),
    ),
  ),
)

-- The address 8.8.8.8 is added and removed again.
abbrev order : Bool → Order
order adds = record { adds = adds; first = 56; rest = codes ".8.8.8"; ip = 134744072 }

order-IsOrder : (adds : Bool) → IsOrder dotted (order adds)
unfolding str_eq
order-IsOrder adds = record { clean = clean; short = omega arith; address = refl }

after_writes-verdict_example :
    hook_func_in
      (after_writes dotted (map written_line (order true ∷ order false ∷ order true ∷ [])) (1 ∷ []))
      (some 134744072)
    ≡ nf_drop
after_writes-verdict_example =
    after_writes-verdict dotted (order true ∷ order false ∷ order true ∷ []) (1 ∷ []) 134744072
      (order-IsOrder true, (order-IsOrder false, (order-IsOrder true, tt))) (refl, tt)

after_writes-Distinct_example :
    Distinct (after_writes dotted ((works, codes "+8.8.8.8") ∷ (works, codes "+8.8.8.8") ∷ []) [])
after_writes-Distinct_example =
    after_writes-Distinct dotted ((works, codes "+8.8.8.8") ∷ (works, codes "+8.8.8.8") ∷ []) [] tt

abbrev two : List ℕ
two = 1 ∷ 2 ∷ []

print_entries-lines_example :
    (k : ℕ) × (print_entries [] two ≡ lines (take k two))
    × ((take k two ≡ two) ⊎ (4064 ≤ length (print_entries [] two)))
print_entries-lines_example = print_entries-lines [] two (omega arith)
