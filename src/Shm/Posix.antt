-- ===== src/Shm/Posix.antt =====
-- module3/task05: POSIX shared memory and a named semaphore.
use eltex_practice.Base.{
  ℕ, ◌+◌, ◌≡◌, refl, ap, if◌then◌else◌, Bool, true, false, ◌&&◌, List, [], Option, none, some,
  arith,
}
use eltex_practice.Shm.{Block, Shm, Producer, Round, consume, poll_processed}
use eltex_practice.Shm.Generating.{Ready}
use eltex_practice.Shm.Loop.{run_generation, Generated, run_generation-Generated}
use eltex_practice.Shm.Draining.{Report, run_consumer_loop, run_consumer_loop-run_generation}
use eltex_practice.Shm.Programs.{
  behind_init, behind_connection, Completed, Exchanged-Completed, after_loop, wait_for_processing,
}

abbrev pub default_shm_size : ℕ
default_shm_size = 4096

-- `sizeof(struct ShmHeader)`: three `size_t` and an `int`, padded.
abbrev pub header_bytes : ℕ
header_bytes = 32

-- What this process holds (descriptor, mapping, semaphore), and the names that it has made.
pub record Ipc : Type 0 where
  pub shm_fd : Bool
  pub mapped : Bool
  pub semaphore : Bool
  pub shm_name : Bool
  pub sem_name : Bool

abbrev pub no_ipc : Ipc
no_ipc = record {
  shm_fd = false;
  mapped = false;
  semaphore = false;
  shm_name = false;
  sem_name = false;
}

abbrev pub all_ipc : Ipc
all_ipc = record {
  shm_fd = true;
  mapped = true;
  semaphore = true;
  shm_name = true;
  sem_name = true;
}

abbrev pub fresh : (ℕ → Block) → Shm
fresh f = record {
  shm_size = default_shm_size;
  first_block_offset = 0;
  free_offset = header_bytes;
  producer_done = false;
  block = f;
}

-- Each call succeeds or not, in the order of the code. The failure paths close the descriptor and
-- drop the mapping, but none of them calls `shm_unlink`.
unfoldable pub init_producer_ipc : Bool → Bool → Bool → Bool → (ℕ → Block) → Option Shm × Ipc
init_producer_ipc false ftruncate mmap sem_open f = (none, no_ipc)
init_producer_ipc true false mmap sem_open f =
    let made : Ipc = record no_ipc { shm_fd = true; shm_name = true } in
    (none, record made { shm_fd = false })
init_producer_ipc true true false sem_open f =
    let made : Ipc = record no_ipc { shm_fd = true; shm_name = true } in
    (none, record made { shm_fd = false })
init_producer_ipc true true true false f =
    let made : Ipc = record no_ipc { shm_fd = true; shm_name = true; mapped = true } in
    (none, record made { mapped = false; shm_fd = false })
init_producer_ipc true true true true f = (some (fresh f), all_ipc)

unfoldable pub cleanup_producer_ipc : Ipc → Ipc
cleanup_producer_ipc i = record i {
  semaphore = false;
  sem_name = false;
  mapped = false;
  shm_fd = false;
  shm_name = false;
}

-- The consumer's descriptor and mapping after the call, with its result first.
unfoldable pub connect_consumer_ipc : Bool → Bool → Bool → Bool → Bool × Ipc
connect_consumer_ipc false fstat mmap sem_open = (false, no_ipc)
connect_consumer_ipc true false mmap sem_open =
    let made : Ipc = record no_ipc { shm_fd = true } in (false, record made { shm_fd = false })
connect_consumer_ipc true true false sem_open =
    let made : Ipc = record no_ipc { shm_fd = true } in (false, record made { shm_fd = false })
connect_consumer_ipc true true true false =
    let made : Ipc = record no_ipc { shm_fd = true; mapped = true } in
    (false, record made { mapped = false; shm_fd = false })
connect_consumer_ipc true true true true =
    (true, record no_ipc { shm_fd = true; mapped = true; semaphore = true })

unfoldable pub disconnect_consumer_ipc : Ipc → Ipc
disconnect_consumer_ipc i = record i { semaphore = false; mapped = false; shm_fd = false }

-- The limit of the loop is read from the header.
abbrev pub limit : Shm → ℕ
limit s = s.shm_size

unfoldable pub run_generation_loop : ℕ → (ℕ → ℕ × (ℕ → ℕ)) → Producer → Option Producer
run_generation_loop fuel draws p = run_generation fuel limit draws p

-- One round of `run_consumer_loop`, and one of `wait_for_processing`.
unfoldable pub consumer_round : Shm → Round × Shm
consumer_round s = consume s

unfoldable pub wait_round : Shm → Bool
wait_round s = poll_processed s

abbrev pub start : (ℕ → Block) → Producer
start f = record { mem = fresh f; last_block_offset = 0 }

abbrev pub rounds : ℕ
rounds = default_shm_size + 1

start-Ready : (f : ℕ → Block) → Ready header_bytes (start f) []
start-Ready f = record {
  holds = record {
    positive = omega arith;
    chained = tt;
    begins = refl;
    free = omega arith;
    fits = omega arith;
    small = omega arith;
    items = tt;
  };
  last = refl;
}

-- A failed `init_producer_ipc` leaves no descriptor, mapping or semaphore with the process; but
-- once `shm_open` has succeeded, the name of the segment stays in the system on every later failure.
pub init_producer_ipc-failure :
    (shm_open ftruncate mmap sem_open : Bool) (f : ℕ → Block)
    → (ftruncate && mmap && sem_open) ≡ false
    → init_producer_ipc shm_open ftruncate mmap sem_open f
      ≡ (none, record no_ipc { shm_name = shm_open })
unfolding init_producer_ipc
init_producer_ipc-failure a b c d f h = ground arith

-- As `SysV.run_generation_loop-ends`, with the limit that the header holds.
pub run_generation_loop-Generated :
    (f : ℕ → Block) (draws : ℕ → ℕ × (ℕ → ℕ))
    → Generated header_bytes [] (run_generation_loop rounds draws (start f))
unfolding run_generation_loop
run_generation_loop-Generated f draws =
    run_generation-Generated header_bytes limit (λ m n e. e) rounds draws (start f) []
      (start-Ready f) refl (omega arith)

-- The two `main`: each call of `init_producer_ipc` or `connect_consumer_ipc` succeeds or not.
unfoldable pub producer_main :
    Bool → Bool → Bool → Bool → (ℕ → Block) → (ℕ → ℕ × (ℕ → ℕ)) → List Shm → Option Bool × Ipc
producer_main shm_open ftruncate mmap sem_open f draws looks =
    behind_init cleanup_producer_ipc (run_generation_loop rounds draws) looks
      (init_producer_ipc shm_open ftruncate mmap sem_open f)

unfoldable pub consumer_main : Bool → Bool → Bool → Bool → ℕ → Shm → Option Bool × Ipc × List Report
consumer_main shm_open fstat mmap sem_open fuel mem =
    behind_connection disconnect_consumer_ipc (run_consumer_loop fuel mem)
      (connect_consumer_ipc shm_open fstat mmap sem_open)

-- As `SysV.producer_main-consumer_main`.
pub producer_main-consumer_main_posix :
    (f : ℕ → Block) (draws : ℕ → ℕ × (ℕ → ℕ))
    → Completed header_bytes no_ipc no_ipc
        (run_generation_loop rounds draws (start f))
        (producer_main true true true true f draws)
        (consumer_main true true true true)
unfolding producer_main consumer_main init_producer_ipc connect_consumer_ipc run_generation_loop
    cleanup_producer_ipc disconnect_consumer_ipc
producer_main-consumer_main_posix f draws =
    Exchanged-Completed header_bytes all_ipc no_ipc
      (record no_ipc { shm_fd = true; mapped = true; semaphore = true }) no_ipc (fresh f)
      cleanup_producer_ipc disconnect_consumer_ipc (run_generation_loop rounds draws) refl refl
      (run_consumer_loop-run_generation header_bytes limit (λ m n e. e) rounds draws (start f) []
        (start-Ready f) refl (omega arith))

-- The program of the producer on every path: where all four calls of the initialisation work, the generation
-- ends, and once a look finds every block processed the program ends with nothing left, and waits
-- before; where one fails the program fails, and the name of the segment stays in the system
-- if `shm_open` had worked.
pub producer_main_lem :
    (shm_open ftruncate mmap sem_open : Bool) (f : ℕ → Block) (draws : ℕ → ℕ × (ℕ → ℕ))
    (looks : List Shm)
    → producer_main shm_open ftruncate mmap sem_open f draws looks ≡ (
        if shm_open && (ftruncate && mmap && sem_open)
        then (if wait_for_processing looks then (some true, no_ipc) else (none, all_ipc))
        else (some false, record no_ipc { shm_name = shm_open }))
unfolding producer_main init_producer_ipc cleanup_producer_ipc
producer_main_lem false b c d f draws looks = refl
producer_main_lem true false c d f draws looks = refl
producer_main_lem true true false d f draws looks = refl
producer_main_lem true true true false f draws looks = refl
producer_main_lem true true true true f draws looks =
    ap (after_loop cleanup_producer_ipc all_ipc looks) (run_generation_loop-Generated f draws).ends
