-- ===== src/Copier/Copy.antt =====
-- `copy_file` of module3/task01/copier.c, as the parent and the child run it, over pipes or over named
-- pipes. `snprintf` keeps 511 bytes of a path.
use eltex_practice.Base.{
  ℕ, ◌+◌, ◌-◌, Bool, not, List, [], ◌∷◌, ◌++◌, Option, none, some, Bytes, codes, take,
  if◌then◌else◌,
}
use eltex_practice.Resources.{descriptor, named, child, Effect, takes, frees, before, failing}
use eltex_practice.Copier.Processes.{
  ParentAnswers, run_parent_process, ChildAnswers, Child, run_child_process, fails,
}

-- Answers to `copy_file`. `pipe` gives the reading and the writing end.
pub record Answers : Type 0 where
  pub pipe_data : Option (ℕ × ℕ)
  pub pipe_sync : Option (ℕ × ℕ)
  pub mkfifo_data : Bool
  pub mkfifo_sync : Bool
  pub fork_works : Bool
  pub open_sync : Option ℕ
  pub open_data : Option ℕ
  pub parent : ParentAnswers

abbrev pub data_path : Bytes → Bytes
data_path fifo_name = take 511 (fifo_name ++ codes "_data")

abbrev pub sync_path : Bytes → Bytes
sync_path fifo_name = take 511 (fifo_name ++ codes "_sync")

-- The parent's work, and what is removed behind it.
abbrev pub work : Answers → Bytes → ℕ → ℕ → List Effect → Option Bool × List Effect
work a src data_fd sync_fd end =
    let run = run_parent_process a.parent data_fd sync_fd src in
    (run.status, run.effects ++ elim run.status [ none ↦ [] | some ok ↦ end ])

unfoldable pub copy_by_fifo : Answers → Bytes → Bytes → Option Bool × List Effect
copy_by_fifo a src fifo_name =
    let d = named (data_path fifo_name) in
    let s = named (sync_path fifo_name) in
    let unlinks = frees d ∷ frees s ∷ [] in
    before unlinks (
      if not a.mkfifo_data
      then failing []
      else before (takes d ∷ []) (
          if not a.mkfifo_sync
          then failing (frees d ∷ [])
          else before (takes s ∷ []) (
              if not a.fork_works
              then failing unlinks
              else before (takes child ∷ []) (elim a.open_sync [
                | none ↦ failing (frees child ∷ unlinks)
                | some sync_fd ↦ before (takes (descriptor sync_fd) ∷ []) (elim a.open_data [
                  | none ↦ failing (frees (descriptor sync_fd) ∷ frees child ∷ unlinks)
                  | some data_fd ↦
                      before (takes (descriptor data_fd) ∷ []) (work a src data_fd sync_fd unlinks)
                ])
              ]))))

-- Behind both calls of `pipe` only the data channel's reading end and the other's writing end are kept; the
-- parent finds its own ends beside them.
unfoldable pub copy_by_pipe : Answers → Bytes → Option Bool × List Effect
copy_by_pipe a src = elim a.pipe_data [
  | none ↦ failing []
  | some (data_fd, data_write) ↦
      before (takes (descriptor data_fd) ∷ takes (descriptor data_write) ∷ []) (elim a.pipe_sync [
        | none ↦ failing (frees (descriptor data_fd) ∷ frees (descriptor data_write) ∷ [])
        | some (sync_read, sync_fd) ↦
            before (takes (descriptor sync_read) ∷ takes (descriptor sync_fd) ∷ []) (
              let closes = frees (descriptor data_fd) ∷ frees (descriptor sync_fd) ∷ [] in
              if not a.fork_works
              then failing closes
              else before (takes child ∷ closes) (work a src (data_fd + 1) (sync_fd - 1) []))
      ])
]

-- The result of `copy_file` in the parent, none while it goes on, and the resources.
unfoldable pub copy_file : Answers → Bytes → Option Bytes → Option Bool × List Effect
copy_file a src none = copy_by_pipe a src
copy_file a src (some fifo_name) = copy_by_fifo a src fifo_name

-- The child behind `fork`: it opens the named pipes, or closes the ends of the parent.
unfoldable pub child_by_fifo : ChildAnswers → Option ℕ → Option ℕ → Child
child_by_fifo c open_sync open_data = elim open_sync [
  | none ↦ fails []
  | some sync_fd ↦ elim open_data [
    | none ↦ fails (takes (descriptor sync_fd) ∷ frees (descriptor sync_fd) ∷ [])
    | some data_fd ↦
        let run = run_child_process c data_fd sync_fd in
        record run {
          effects = takes (descriptor sync_fd) ∷ takes (descriptor data_fd) ∷ run.effects;
        }
  ]
]

unfoldable pub child_by_pipe : ChildAnswers → ℕ → ℕ → Child
child_by_pipe c data_fd sync_fd =
    let run = run_child_process c data_fd sync_fd in
    record run {
      effects = frees (descriptor (data_fd + 1)) ∷ frees (descriptor (sync_fd - 1)) ∷ run.effects;
    }
