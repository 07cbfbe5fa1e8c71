-- ===== src/Copier/Tests.antt =====
-- Runs of the file copier (module3/task01).
use eltex_practice.Base.{
  ℕ, ◌≡◌, refl, Bool, true, false, Bytes, List, [], ◌∷◌, ◌++◌, Option, none, some, arith, codes,
  take, str_eq,
}
use eltex_practice.Copier.Loops.{chunk, copy_loop, write_loop}
use eltex_practice.Copier.Processes.{
  header_size, run_parent_process, run_child_process, send_header, send_file,
}
use eltex_practice.Copier.Delivery.{
  parent_answers, child_answers, run_child_process-run_parent_process,
}
use eltex_practice.Copier.Args.{
  Item, file, option, written, copier_main, run, name_of, files_of, copier_main-written,
}
use eltex_practice.Copier.Copy.{Answers}

-- A file of four bytes, read in two pieces and received in two others.
abbrev read_as : List Bytes
read_as = (1 ∷ 2 ∷ 3 ∷ []) ∷ (4 ∷ []) ∷ []

abbrev received_as : List Bytes
received_as = (1 ∷ 2 ∷ []) ∷ (3 ∷ 4 ∷ []) ∷ []

abbrev takes_one : List ℕ
takes_one = 0 ∷ 0 ∷ 0 ∷ 0 ∷ []

abbrev parent_sent : Bytes
parent_sent = (run_parent_process (parent_answers 7 read_as takes_one) 4 5 (codes "a")).sent

run_child_process-run_parent_process_example :
    ((run_parent_process (parent_answers 7 read_as takes_one) 4 5 (codes "a")).status ≡ some true)
    × ((run_child_process
          (child_answers 8 (take header_size parent_sent) received_as takes_one)
          4
          5).exit
        ≡ some true)
    × ((run_child_process
          (child_answers 8 (take header_size parent_sent) received_as takes_one)
          4
          5).dest
        ≡ some (codes "a.copy"))
    × ((run_child_process
          (child_answers 8 (take header_size parent_sent) received_as takes_one)
          4
          5).content
        ≡ 1 ∷ 2 ∷ 3 ∷ 4 ∷ [])
    × ((run_child_process
          (child_answers 8 (take header_size parent_sent) received_as takes_one)
          4
          5).warned
        ≡ false)
unfolding run_parent_process send_header send_file copy_loop write_loop
run_child_process-run_parent_process_example =
    run_child_process-run_parent_process 4 5 7 8 (codes "a") read_as received_as takes_one takes_one
      (refl, tt) (omega arith) (omega arith) (chunk 1 (2 ∷ 3 ∷ []), (chunk 4 [], tt))
      (chunk 1 (2 ∷ []), (chunk 3 (4 ∷ []), tt)) (omega arith) (omega arith) refl

abbrev answers : Answers
answers = record {
  pipe_data = some (3, 4);
  pipe_sync = some (5, 6);
  mkfifo_data = true;
  mkfifo_sync = true;
  fork_works = true;
  open_sync = some 3;
  open_data = some 4;
  parent = parent_answers 7 read_as takes_one;
}

abbrev items : List Item
items = file (codes "a") ∷ option (codes "p") ∷ file (codes "b") ∷ []

abbrev copies_a : Option Bytes → Bytes → Bool
copies_a fifo_name f = str_eq f (codes "a")

copier_main-written_example :
    (copier_main copies_a (written items) ≡ run (copies_a (name_of none items)) (files_of items))
    × (copier_main copies_a (written items ++ codes "-p" ∷ []) ≡ (false, []))
unfolding str_eq
copier_main-written_example = copier_main-written copies_a items (refl, (refl, tt))
