-- ===== src/Copier/ReleaseChild.antt =====
-- What the child of module3/task01/copier.c gives back before it exits.
use eltex_practice.Base.{
  ℕ, ◌≡◌, refl, Bool, false, not, List, [], ◌∷◌, ◌++◌, Option, some, Bytes, codes, inl, inr, ltb,
  length,
}
use eltex_practice.Resources.{
  descriptor, memory, Effect, Settles, if_both, Option-both, Settles-closes, Settles-all,
  Settles-takes,
}
use eltex_practice.Copier.Loops.{copy_loop}
use eltex_practice.Copier.Processes.{
  ChildAnswers, Child, run_child_process, open_copy, receive_file, filename_of, header_size,
}

abbrev outcome : Child → Option Bool × List Effect
outcome child = (child.exit, child.effects)

module _ (c : ChildAnswers) (ok : Bool) (e : (copy_loop c.reads c.writes).ended ≡ some ok) where
  receive_file-Settles :
      (fd_out data_fd : ℕ) (header dest : Bytes)
      → Settles
          (descriptor fd_out ∷ memory ∷ descriptor data_fd ∷ [])
          (outcome (receive_file c fd_out data_fd header dest))
  unfolding receive_file
  receive_file-Settles fd_out data_fd header dest = rw (e) (record {
    ended = (ok, refl);
    freed = (inr (inl refl), (inl refl, (inr (inr (inl refl)), tt)));
    released = tt;
  })

  open_copy-Settles :
      (data_fd : ℕ) (header : Bytes)
      → Settles (descriptor data_fd ∷ []) (outcome (open_copy c data_fd header))
  unfolding open_copy
  open_copy-Settles data_fd header =
      let Clean : Child → Type 0 = λ child. Settles (descriptor data_fd ∷ []) (outcome child) in
      if_both Clean (not c.malloc_works) _ _ (Settles-all (descriptor data_fd ∷ []) false) (
        Option-both Clean c.fd_out _ _
          (Settles-takes memory (descriptor data_fd ∷ []) _
            (Settles-all (memory ∷ descriptor data_fd ∷ []) false))
          λ fd_out. Settles-takes memory (descriptor data_fd ∷ []) _ (
            Settles-takes (descriptor fd_out) (memory ∷ descriptor data_fd ∷ []) _
              (receive_file-Settles fd_out data_fd header (filename_of header ++ codes ".copy"))))

  -- Whatever fails, the child closes both its descriptors and the file, and frees its memory, before it exits.
  pub run_child_process-Settles :
      (data_fd sync_fd : ℕ)
      → Settles
          (descriptor sync_fd ∷ descriptor data_fd ∷ [])
          (outcome (run_child_process c data_fd sync_fd))
  unfolding run_child_process
  run_child_process-Settles data_fd sync_fd =
      let Clean : Child → Type 0 =
        λ child. Settles (descriptor sync_fd ∷ descriptor data_fd ∷ []) (outcome child) in
      let failed = Settles-all (descriptor sync_fd ∷ descriptor data_fd ∷ []) false in
      if_both Clean (not c.ready_written) _ _
        (record { ended = (false, refl); freed = (inr (inl refl), (inl refl, tt)); released = tt })
        (Option-both Clean c.header_read _ _ failed λ header.
          if_both Clean (ltb (length header) header_size) _ _ failed (
            Settles-closes (descriptor sync_fd) (descriptor data_fd ∷ []) _
              (open_copy-Settles data_fd header)))
