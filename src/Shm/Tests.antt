-- ===== src/Shm/Tests.antt =====
-- Runs of the producer and the consumer, and the theorems at concrete inputs.
use eltex_practice.Base.{ℕ, some, ◌+◌, ◌≡◌, refl, true, false, [], ◌∷◌, arith}
use eltex_practice.Shm.{
  Block, Producer, draw_vals, link_block, generate, find_block, search, scan_vals, min_max,
  processed, consume, mark_processed,
}
use eltex_practice.Shm.Generating.{Ready, drawn, generate-room}
use eltex_practice.Shm.Run.{
  System, produces, consumes, here, next, Inv, produce_step, consume_step, Rising, finished-all,
}
use eltex_practice.Shm.Loop.{Generated, run_generation, run_generation-Generated}
use eltex_practice.Shm.Programs.{Completed}
use eltex_practice.Shm.SysV
use eltex_practice.Shm.Posix

-- Memory that holds nothing yet.
abbrev blank : ℕ → Block
blank i = record { num_elements = 0; next_block_offset = 0; vals = [] }

abbrev begin : Producer
begin = SysV.start blank

-- One block, of five elements.
abbrev ramp : ℕ → ℕ
ramp i = 42 + i

abbrev one : Producer
one = (generate SysV.limit 0 ramp begin).1

consume-one : (consume one.mem).0 ≡ processed 24 (42, 46)
unfolding generate link_block draw_vals consume search find_block min_max scan_vals
consume-one = refl

one-Ready : Ready 24 one (drawn 0 ramp ∷ [])
one-Ready =
    (generate-room SysV.limit 24 0 ramp begin [] (SysV.start-Ready blank) refl (omega arith)).1

-- A segment with room for one block of five elements.
abbrev tight : Producer
tight = record begin { mem = record (begin.mem) { shm_size = 80 } }

tight-Ready : Ready 24 tight []
tight-Ready = record {
  holds = record {
    positive = omega arith;
    chained = tt;
    begins = refl;
    free = omega arith;
    fits = omega arith;
    small = omega arith;
    items = tt;
  };
  last = refl;
}

abbrev begin_system : System
begin_system = record { prod = begin; ended = false; generated = []; rounds = [] }

begin-Inv : Inv 24 SysV.limit begin_system
begin-Inv = record {
  chain = [];
  ready = SysV.start-Ready blank;
  limited = refl;
  done = refl;
  all_there = refl;
  balanced = refl;
}

-- Where `mmap` fails the name of the segment stays.
producer_main_lem_example :
    Posix.producer_main true true false true blank (λ i. (i, ramp)) []
    ≡ (some false, record Posix.no_ipc { shm_name = true })
producer_main_lem_example = Posix.producer_main_lem true true false true blank (λ i. (i, ramp)) []

abbrev tight_system : System
tight_system = record { prod = tight; ended = false; generated = []; rounds = [] }

tight-Inv : Inv 24 Posix.limit tight_system
tight-Inv = record {
  chain = [];
  ready = tight-Ready;
  limited = refl;
  done = refl;
  all_there = refl;
  balanced = refl;
}

-- A block is generated, the next one finds no room, and the block is processed.
abbrev worked : System
worked =
    consume_step (produce_step Posix.limit 0 ramp (produce_step Posix.limit 0 ramp tight_system))

finished-all_example : (worked.ended ≡ true) × (worked.rounds ≡ 24 ∷ []) × Rising worked.generated
unfolding consume search find_block generate link_block mark_processed draw_vals
finished-all_example =
    finished-all 24 Posix.limit (λ m n e. e) tight-Inv
      (next (next (next here (produces 0 ramp refl)) (produces 0 ramp refl)) consumes) refl

run_generation-Generated_example :
    Generated 24 [] (run_generation 4097 Posix.limit (λ i. (i, ramp)) tight)
run_generation-Generated_example =
    run_generation-Generated 24 Posix.limit (λ m n e. e) 4097 (λ i. (i, ramp)) tight [] tight-Ready
      refl (omega arith)

producer_main-consumer_main_example :
    Completed 24 SysV.no_ipc false
      (SysV.run_generation_loop SysV.rounds (λ i. (i, ramp)) begin)
      (SysV.producer_main true true true true true blank (λ i. (i, ramp)))
      (SysV.consumer_main true true true true)
producer_main-consumer_main_example = SysV.producer_main-consumer_main blank λ i. (i, ramp)
