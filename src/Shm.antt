-- ===== src/Shm.antt =====
-- The producer and its consumers over one shared memory segment: module3/task04 (System V) and
-- module3/task05 (POSIX). Their code is the same but for the calls of the system, the header's
-- size, and where the producer reads the segment's size from.
-- The parts that both share stand here; `Shm/SysV.antt` and `Shm/Posix.antt` put them to use.
-- Each function is one critical section, between `semop` or `sem_wait` and its counterpart.
pub mod Chain
pub mod Find
pub mod Generating
pub mod Consuming
pub mod SysV
pub mod Posix
pub mod Run
pub mod Loop
pub mod Draining
pub mod Programs
mod Tests
use eltex_practice.Base.{
  ℕ, zero, suc, ◌+◌, ◌*◌, ◌%◌, ◌^◌, Bool, true, false, List, [], ◌∷◌, ltb, ◌==◌, if◌then◌else◌,
  take, get_or,
}

-- `struct Block` with its flexible array, here `vals`.
pub record Block : Type 0 where
  pub num_elements : ℕ
  pub next_block_offset : ℕ
  pub vals : List ℕ

-- The segment: `struct ShmHeader`, and the block that begins at each offset. System V's header has
-- no `shm_size`; there the field stands for the size given to `shmget`.
pub record Shm : Type 0 where
  pub shm_size : ℕ
  pub first_block_offset : ℕ
  pub free_offset : ℕ
  pub producer_done : Bool
  pub block : ℕ → Block

abbrev pub update : (ℕ → Block) → ℕ → Block → ℕ → Block
update f o b i = if i == o then b else f i

-- `sizeof(struct Block)` and `sizeof(int)`
abbrev pub block_header : ℕ
block_header = 16

abbrev pub block_bytes : ℕ → ℕ
block_bytes n = block_header + n * 4

-- `size_t` addition
abbrev pub add_size : ℕ → ℕ → ℕ
add_size a b = (a + b) % 2 ^ 64

-- What the producer works on: the segment, and its own `last_block_offset`.
pub record Producer : Type 0 where
  pub mem : Shm
  pub last_block_offset : ℕ

-- `data[i] = rand() % 100` for `i < n`, from the values that `rand` returns.
unfoldable pub draw_vals : ℕ → (ℕ → ℕ) → List ℕ
draw_vals zero rand = []
draw_vals (suc n) rand = (rand 0 % 100) ∷ draw_vals n (λ i. rand (suc i))

-- The new block is written, and linked from the header or from the block before it.
unfoldable pub link_block : Producer → Block → Shm
link_block p b =
    if p.mem.first_block_offset == 0
    then record (p.mem) {
      first_block_offset = p.mem.free_offset;
      block = update p.mem.block p.mem.free_offset b;
    }
    else record (p.mem) {
      block =
          update (update p.mem.block p.mem.free_offset b) p.last_block_offset
            (record (update p.mem.block p.mem.free_offset b p.last_block_offset) {
              next_block_offset = p.mem.free_offset;
            });
    }

-- One round of `run_generation_loop`: the first `rand` gives the number of elements, the later
-- ones the elements. `true` says that the loop ends.
unfoldable pub generate : (Shm → ℕ) → ℕ → (ℕ → ℕ) → Producer → Bool × Producer
generate limit r rand p =
    let n = 5 + r % 11 in
    let end = add_size p.mem.free_offset (block_bytes n) in
    if ltb (limit p.mem) end
    then (true, record p { mem = record (p.mem) { producer_done = true } })
    else (
      false,
      record {
        mem =
            record (link_block p
              (record { num_elements = n; next_block_offset = 0; vals = draw_vals n rand })) {
                free_offset = end;
              };
        last_block_offset = p.mem.free_offset;
      },
    )

-- How the search for a block with elements ends.
pub data Found : Type 0 where
  at : ℕ → Found
  all_processed out_of_fuel : Found

-- The loop `while (current_offset != 0)` of the consumer, and of `wait_for_processing`.
unfoldable pub find_block : ℕ → (ℕ → Block) → ℕ → Found
find_block zero f current = out_of_fuel
find_block (suc fuel) f current =
    let rest = find_block fuel f (f current).next_block_offset in
    if current == 0
    then all_processed
    else if ltb 0 (f current).num_elements
    then at current
    else rest

-- A chain has fewer blocks than bytes: `free_offset` and one more round are enough.
unfoldable pub search : Shm → Found
search s = find_block (suc s.free_offset) s.block s.first_block_offset

-- The loop over the elements, on top of the least and the greatest so far.
unfoldable pub scan_vals : List ℕ → ℕ × ℕ → ℕ × ℕ
scan_vals [] m = m
scan_vals (v ∷ vs) (lo, hi) = scan_vals vs (if ltb v lo then v else lo, if ltb hi v then v else hi)

unfoldable pub min_max : Block → ℕ × ℕ
min_max b = scan_vals (take b.num_elements b.vals) (get_or b.vals 0 0, get_or b.vals 0 0)

-- What one round of `run_consumer_loop` does.
pub data Round : Type 0 where
  processed : ℕ → ℕ × ℕ → Round
  finished waiting stuck : Round

unfoldable pub mark_processed : ℕ → Shm → Shm
mark_processed o s = record s { block = update s.block o (record (s.block o) { num_elements = 0 }) }

unfoldable pub consume : Shm → Round × Shm
consume s = elim (search s) [
  | at o ↦ (processed o (min_max (s.block o)), mark_processed o s)
  | all_processed ↦ ((if s.producer_done then finished else waiting), s)
  | out_of_fuel ↦ (stuck, s)
]

-- One round of `wait_for_processing`: `true` ends the loop.
unfoldable pub poll_processed : Shm → Bool
poll_processed s = elim (search s) [ all_processed ↦ true | _ ↦ false ]
