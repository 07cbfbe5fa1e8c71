-- ===== src/Shm/Programs.antt =====
-- The programs from their start to their end: producer.c and consumer.c of module3/task04 and module3/task05, with
-- `wait_for_processing`. `looks` is the segment as the producer finds it at each look.
use eltex_practice.Base.{
  ℕ, ◌≡◌, refl, ap, ◌∙◌, Bool, true, false, List, [], ◌∷◌, Option, none, some, map, if◌then◌else◌,
}
use eltex_practice.Shm.{Shm, Producer, poll_processed}
use eltex_practice.Shm.Chain.{Item}
use eltex_practice.Shm.Generating.{Ready}
use eltex_practice.Shm.Draining.{Report, run_consumer_loop, Reported, Exchanged}

-- Whether the loop has ended.
unfoldable pub wait_for_processing : List Shm → Bool
wait_for_processing [] = false
wait_for_processing (s ∷ looks) =
    let later = wait_for_processing looks in if poll_processed s then true else later

-- `main` of the producer behind its loop, and behind the initialisation: true is EXIT_SUCCESS, and none that it
-- still runs.
abbrev pub after_loop {ℓ} :
    {I : Type ℓ} → (I → I) → I → List Shm → Option Producer → Option Bool × I
after_loop cleanup ipc looks none = (none, ipc)
after_loop cleanup ipc looks (some p) =
    if wait_for_processing looks then (some true, cleanup ipc) else (none, ipc)

abbrev pub behind_init {ℓ} :
    {I : Type ℓ}
    → (I → I)
    → (Producer → Option Producer)
    → List Shm
    → Option Shm × I
    → Option Bool × I
behind_init cleanup loop looks (none, ipc) = (some false, ipc)
behind_init cleanup loop looks (some mem, ipc) =
    after_loop cleanup ipc looks (loop (record { mem = mem; last_block_offset = 0 }))

-- `main` of a consumer behind its connection, with the reports of its loop; nobody else comes between.
abbrev pub behind_connection {ℓ} :
    {I : Type ℓ} → (I → I) → Option (List Report × Shm) → Bool × I → Option Bool × I × List Report
behind_connection disconnect loop (false, ipc) = (some false, ipc, [])
behind_connection disconnect none (true, ipc) = (none, ipc, [])
behind_connection disconnect (some (reports, mem)) (true, ipc) =
    (some true, disconnect ipc, reports)

-- Both programs ran to their end: the producer made these blocks, the consumer reported each of them, and the
-- producer found nothing left and has cleaned up.
pub record Completed {ℓ κ} {I : Type ℓ} {J : Type κ} (header : ℕ) (none_left : I) (off : J)
    (generated : Option Producer) (producer : List Shm → Option Bool × I)
    (consumer : ℕ → Shm → Option Bool × J × List Report) : Type (ℓ ⊔ κ) where
  pub result : Producer
  pub made : List Item
  pub reports : List Report
  pub mem : Shm
  pub ends : generated ≡ some result
  pub ready : Ready header result made
  pub left : run_consumer_loop result.mem.free_offset result.mem ≡ some (reports, mem)
  pub consumed : consumer result.mem.free_offset result.mem ≡ (some true, off, reports)
  pub reported : Reported (map (λ x. x.vals) made) reports
  pub finished : producer (mem ∷ []) ≡ (some true, none_left)

pub Exchanged-Completed {ℓ κ} :
    {I : Type ℓ} {J : Type κ} (header : ℕ) (all_ipc none_left : I) (on off : J) (fresh : Shm)
    (cleanup : I → I) (disconnect : J → J) (loop : Producer → Option Producer)
    → cleanup all_ipc ≡ none_left
    → disconnect on ≡ off
    → Exchanged header [] (loop (record { mem = fresh; last_block_offset = 0 }))
    → Completed header none_left off
        (loop (record { mem = fresh; last_block_offset = 0 }))
        (λ looks. behind_init cleanup loop looks (some fresh, all_ipc))
        (λ fuel mem. behind_connection disconnect (run_consumer_loop fuel mem) (true, on))
unfolding wait_for_processing
Exchanged-Completed header all_ipc none_left on off fresh cleanup disconnect loop clean cut x =
    record {
      result = x.result;
      made = x.made;
      reports = x.drained.reports;
      mem = x.drained.mem;
      ends = x.ends;
      ready = x.ready;
      left = x.drained.ends;
      consumed = rw (x.drained.ends, cut) refl;
      reported = x.drained.reported;
      finished =
          ap (λ r. after_loop cleanup all_ipc (x.drained.mem ∷ []) r) x.ends
          ∙ rw (x.drained.wait_ends, clean) refl;
    }
