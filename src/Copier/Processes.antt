-- ===== src/Copier/Processes.antt =====
-- `run_parent_process` and `run_child_process` of module3/task01/copier.c, with the header of copier.h.
-- What the system answers to each of them is a record.
use eltex_practice.Base.{
  ℕ, ◌+◌, ◌*◌, ◌/◌, ◌^◌, Bool, false, ◌&&◌, not, List, [], ◌∷◌, ◌++◌, Option, none, some, Bytes,
  codes, length, take, drop, ltb, ◌==◌, if◌then◌else◌, copy_string, until_nul, le32, le32_at,
}
use eltex_practice.Resources.{descriptor, child, memory, Effect, takes, frees}
use eltex_practice.Copier.Loops.{Copied, copy_loop}

-- The header in the memory of a little-endian machine: the array of 256 bytes, and an `off_t` of 64 bits.
abbrev pub name_size : ℕ
name_size = 256

abbrev pub header_size : ℕ
header_size = 264

abbrev pub header_bytes : Bytes → ℕ → Bytes
header_bytes src size = copy_string name_size src ++ le32 size (le32 (size / 2 ^ 32) [])

abbrev pub filename_of : Bytes → Bytes
filename_of header = until_nul (take name_size header)

abbrev pub file_size_of : Bytes → ℕ
file_size_of header = le32_at 0 (drop name_size header) + 2 ^ 32 * le32_at 4 (drop name_size header)

-- Answers to the parent. `ready` is the byte that came from the child; `header_write` is what `write` of
-- the header returned, none below 0; `wait` is what `waitpid` gave: none for an error, some none for a
-- child that did not exit, else its status.
pub record ParentAnswers : Type 0 where
  pub fd_in : Option ℕ
  pub file_size : Option ℕ
  pub ready : Option ℕ
  pub header_write : Option ℕ
  pub reads : List (Option Bytes)
  pub writes : List (Option ℕ)
  pub wait : Option (Option ℕ)

-- Whether the copy succeeded, none while it goes on; what went into the data channel; and the effects.
pub record Parent : Type 0 where
  pub status : Option Bool
  pub sent : Bytes
  pub effects : List Effect

abbrev pub exited_zero : Option (Option ℕ) → Bool
exited_zero none = false
exited_zero (some none) = false
exited_zero (some (some code)) = code == 0

-- The end of the data channel and the wait for the child, behind the copying.
abbrev pub after_sending : ParentAnswers → ℕ → ℕ → Bytes → Copied → Parent
after_sending p fd_in data_fd header copied = elim copied.ended [
  | none ↦ record { status = none; sent = header ++ copied.out; effects = [] }
  | some ok ↦ record {
    status = some (ok && exited_zero p.wait);
    sent = header ++ copied.out;
    effects = frees (descriptor fd_in) ∷ frees (descriptor data_fd) ∷ frees child ∷ [];
  }
]

unfoldable pub send_file : ParentAnswers → ℕ → ℕ → Bytes → Parent
send_file p fd_in data_fd header = after_sending p fd_in data_fd header (copy_loop p.reads p.writes)

unfoldable pub send_header : ParentAnswers → ℕ → ℕ → Bytes → Parent
send_header p fd_in data_fd header =
    let failed = frees (descriptor fd_in) ∷ frees (descriptor data_fd) ∷ frees child ∷ [] in
    elim p.header_write [
      | none ↦ record { status = some false; sent = []; effects = failed }
      | some n ↦
          if ltb n header_size
          then record { status = some false; sent = take n header; effects = failed }
          else send_file p fd_in data_fd header
    ]

abbrev pub is_ready : Option ℕ → Bool
is_ready none = false
is_ready (some c) = c == 82

unfoldable pub run_parent_process : ParentAnswers → ℕ → ℕ → Bytes → Parent
run_parent_process p data_fd sync_fd src =
    let closing = frees (descriptor data_fd) ∷ frees (descriptor sync_fd) ∷ frees child ∷ [] in
    elim p.fd_in [
      | none ↦ record { status = some false; sent = []; effects = closing }
      | some fd_in ↦
          let failed : Parent = record {
            status = some false;
            sent = [];
            effects = takes (descriptor fd_in) ∷ frees (descriptor fd_in) ∷ closing;
          } in
          elim p.file_size [
            | none ↦ failed
            | some size ↦
                let later = send_header p fd_in data_fd (header_bytes src size) in
                if is_ready p.ready
                then record {
                  status = later.status;
                  sent = later.sent;
                  effects = takes (descriptor fd_in) ∷ frees (descriptor sync_fd) ∷ later.effects;
                }
                else failed
          ]
    ]

-- Answers to the child.
pub record ChildAnswers : Type 0 where
  pub ready_written : Bool
  pub header_read : Option Bytes
  pub malloc_works : Bool
  pub fd_out : Option ℕ
  pub reads : List (Option Bytes)
  pub writes : List (Option ℕ)

-- Whether it exits with success, none while it goes on; the file that it opened and what it wrote there;
-- whether it warned of a wrong size; and the effects.
pub record Child : Type 0 where
  pub exit : Option Bool
  pub dest : Option Bytes
  pub content : Bytes
  pub warned : Bool
  pub effects : List Effect

abbrev pub after_receiving : ℕ → ℕ → Bytes → Bytes → Copied → Child
after_receiving fd_out data_fd header dest copied =
    let closing = frees memory ∷ frees (descriptor fd_out) ∷ frees (descriptor data_fd) ∷ [] in
    elim copied.ended [
      | none ↦ record {
        exit = none;
        dest = some dest;
        content = copied.out;
        warned = false;
        effects = [];
      }
      | some ok ↦ record {
        exit = some ok;
        dest = some dest;
        content = copied.out;
        warned = ok && not (copied.total == file_size_of header);
        effects = closing;
      }
    ]

unfoldable pub receive_file : ChildAnswers → ℕ → ℕ → Bytes → Bytes → Child
receive_file c fd_out data_fd header dest =
    after_receiving fd_out data_fd header dest (copy_loop c.reads c.writes)

-- `EXIT_FAILURE` before a file is open.
abbrev pub fails : List Effect → Child
fails effects = record {
  exit = some false;
  dest = none;
  content = [];
  warned = false;
  effects = effects;
}

unfoldable pub open_copy : ChildAnswers → ℕ → Bytes → Child
open_copy c data_fd header =
    let dest = filename_of header ++ codes ".copy" in
    if not c.malloc_works then fails (frees (descriptor data_fd) ∷ []) else elim c.fd_out [
      | none ↦ fails (takes memory ∷ frees memory ∷ frees (descriptor data_fd) ∷ [])
      | some fd_out ↦
          let later = receive_file c fd_out data_fd header dest in
          record later { effects = takes memory ∷ takes (descriptor fd_out) ∷ later.effects }
    ]

unfoldable pub run_child_process : ChildAnswers → ℕ → ℕ → Child
run_child_process c data_fd sync_fd =
    let closing = frees (descriptor data_fd) ∷ [] in
    if not c.ready_written
    then fails (frees (descriptor data_fd) ∷ frees (descriptor sync_fd) ∷ [])
    else elim c.header_read [
      | none ↦ fails (frees (descriptor sync_fd) ∷ closing)
      | some header ↦
          if ltb (length header) header_size
          then fails (frees (descriptor sync_fd) ∷ closing)
          else (let later = open_copy c data_fd header in
              record later { effects = frees (descriptor sync_fd) ∷ later.effects })
    ]
