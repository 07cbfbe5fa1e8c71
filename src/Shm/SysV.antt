-- ===== src/Shm/SysV.antt =====
-- module3/task04: System V shared memory and one semaphore.
use eltex_practice.Base.{
  ℕ, ◌+◌, ◌≡◌, refl, ap, ◌∙◌, Bool, true, false, not, ◌&&◌, List, [], Option, none, some, arith,
  if◌then◌else◌,
}
use eltex_practice.Shm.{Block, Shm, Producer}
use eltex_practice.Shm.Generating.{Ready}
use eltex_practice.Shm.Loop.{run_generation, Generated, run_generation-Generated}
use eltex_practice.Shm.Draining.{Report, run_consumer_loop, run_consumer_loop-run_generation}
use eltex_practice.Shm.Programs.{behind_init, behind_connection, Completed, Exchanged-Completed}

abbrev pub shm_bytes : ℕ
shm_bytes = 4096

-- `sizeof(struct ShmHeader)`: two `size_t` and an `int`, padded.
abbrev pub header_bytes : ℕ
header_bytes = 24

-- What this process holds or has made: the segment, its attachment, the semaphore set.
pub record Ipc : Type 0 where
  pub segment : Bool
  pub attached : Bool
  pub semaphore : Bool

abbrev pub no_ipc : Ipc
no_ipc = record { segment = false; attached = false; semaphore = false }

abbrev pub all_ipc : Ipc
all_ipc = record { segment = true; attached = true; semaphore = true }

abbrev pub fresh : (ℕ → Block) → Shm
fresh f = record {
  shm_size = shm_bytes;
  first_block_offset = 0;
  free_offset = header_bytes;
  producer_done = false;
  block = f;
}

-- Behind the removal of an old segment and semaphore: each call succeeds or not, in the order of the code; `f` is what the new segment holds. The
-- header that is written is returned, or none for -1. What was made before a failure is undone.
unfoldable pub init_producer_ipc : Bool → Bool → Bool → Bool → (ℕ → Block) → Option Shm × Ipc
init_producer_ipc false shmat semget setval f = (none, no_ipc)
init_producer_ipc true false semget setval f =
    let made : Ipc = record no_ipc { segment = true } in (none, record made { segment = false })
init_producer_ipc true true false setval f =
    let made : Ipc = record no_ipc { segment = true; attached = true } in
    (none, record made { attached = false; segment = false })
init_producer_ipc true true true false f =
    (none, record all_ipc { semaphore = false; attached = false; segment = false })
init_producer_ipc true true true true f = (some (fresh f), all_ipc)

unfoldable pub cleanup_producer_ipc : Ipc → Ipc
cleanup_producer_ipc i = record i { semaphore = false; attached = false; segment = false }

-- A consumer only attaches: the segment and the semaphore are the producer's.
unfoldable pub connect_consumer_ipc : Bool → Bool → Bool → Bool × Bool
connect_consumer_ipc false shmat semget = (false, false)
connect_consumer_ipc true false semget = (false, false)
connect_consumer_ipc true true false = let attached : Bool = true in (false, not attached)
connect_consumer_ipc true true true = (true, true)

-- Whether the segment is attached after `disconnect_consumer_ipc`.
unfoldable pub disconnect_consumer_ipc : Bool → Bool
disconnect_consumer_ipc attached = false

-- The limit of the loop is the constant.
abbrev pub limit : Shm → ℕ
limit s = shm_bytes

unfoldable pub run_generation_loop : ℕ → (ℕ → ℕ × (ℕ → ℕ)) → Producer → Option Producer
run_generation_loop fuel draws p = run_generation fuel limit draws p

abbrev pub start : (ℕ → Block) → Producer
start f = record { mem = fresh f; last_block_offset = 0 }

-- A segment has 4096 bytes: so many rounds and one more are enough.
abbrev pub rounds : ℕ
rounds = shm_bytes + 1

pub start-Ready : (f : ℕ → Block) → Ready header_bytes (start f) []
start-Ready f = record {
  holds = record {
    positive = omega arith;
    chained = tt;
    begins = refl;
    free = omega arith;
    fits = omega arith;
    small = omega arith;
    items = tt;
  };
  last = refl;
}

-- `init_producer_ipc` succeeds exactly when all four calls do; then the three resources are held
-- and the segment is an empty chain, and otherwise nothing is left behind.
pub init_producer_ipc_lem :
    (shmget shmat semget setval : Bool) (f : ℕ → Block)
    → init_producer_ipc shmget shmat semget setval f
      ≡ (if shmget && shmat && semget && setval then (some (fresh f), all_ipc) else (none, no_ipc))
unfolding init_producer_ipc
init_producer_ipc_lem a b c d f = ground arith

-- Whatever the segment holds at the start and whatever `rand` returns, the loop ends within its
-- rounds with `producer_done` raised, and the segment then holds the chain of all the blocks
-- generated, each linked to the next and all within the 4096 bytes.
pub run_generation_loop-ends :
    (f : ℕ → Block) (draws : ℕ → ℕ × (ℕ → ℕ))
    → Generated header_bytes [] (run_generation_loop rounds draws (start f))
unfolding run_generation_loop
run_generation_loop-ends f draws =
    run_generation-Generated header_bytes limit (λ m n e. refl) rounds draws (start f) []
      (start-Ready f) refl (omega arith)

-- The two `main`: each call succeeds or not, `ftok` and those of `init_producer_ipc` or `connect_consumer_ipc`.
unfoldable pub producer_main :
    Bool
    → Bool
    → Bool
    → Bool
    → Bool
    → (ℕ → Block)
    → (ℕ → ℕ × (ℕ → ℕ))
    → List Shm
    → Option Bool × Ipc
producer_main ftok shmget shmat semget setval f draws looks =
    if not ftok
    then (some false, no_ipc)
    else behind_init cleanup_producer_ipc (run_generation_loop rounds draws) looks
        (init_producer_ipc shmget shmat semget setval f)

unfoldable pub consumer_main :
    Bool → Bool → Bool → Bool → ℕ → Shm → Option Bool × Bool × List Report
consumer_main ftok shmget shmat semget fuel mem =
    if not ftok
    then (some false, false, [])
    else behind_connection disconnect_consumer_ipc (run_consumer_loop fuel mem)
        (connect_consumer_ipc shmget shmat semget)

-- When no call fails, whatever the segment holds at the start and whatever `rand` returns: the producer makes
-- its blocks, a consumer that then runs alone reports the least and the greatest element of each of
-- them once, in order, detaches and ends, and the producer, which then looks, ends too and
-- leaves neither segment nor attachment nor semaphore.
pub producer_main-consumer_main :
    (f : ℕ → Block) (draws : ℕ → ℕ × (ℕ → ℕ))
    → Completed header_bytes no_ipc false
        (run_generation_loop rounds draws (start f))
        (producer_main true true true true true f draws)
        (consumer_main true true true true)
unfolding producer_main consumer_main init_producer_ipc connect_consumer_ipc run_generation_loop
    cleanup_producer_ipc disconnect_consumer_ipc
producer_main-consumer_main f draws =
    Exchanged-Completed header_bytes all_ipc no_ipc true false (fresh f) cleanup_producer_ipc
      disconnect_consumer_ipc (run_generation_loop rounds draws) refl refl
      (run_consumer_loop-run_generation header_bytes limit (λ m n e. refl) rounds draws (start f) []
        (start-Ready f) refl (omega arith))

-- Whichever call fails, the producer reports failure and leaves nothing.
pub producer_main_failed :
    (ftok shmget shmat semget setval : Bool) (f : ℕ → Block) (draws : ℕ → ℕ × (ℕ → ℕ))
    (looks : List Shm)
    → (ftok && shmget && shmat && semget && setval) ≡ false
    → producer_main ftok shmget shmat semget setval f draws looks ≡ (some false, no_ipc)
unfolding producer_main
producer_main_failed false b c d e f draws looks h = refl
producer_main_failed true b c d e f draws looks h =
    ap (behind_init cleanup_producer_ipc (run_generation_loop rounds draws) looks)
      {y = (none, no_ipc)} (init_producer_ipc_lem b c d e f ∙ rw h refl)
