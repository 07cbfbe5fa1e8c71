-- ===== src/Copier/Release.antt =====
-- What `copy_file` of module3/task01/copier.c gives back when it returns.
use eltex_practice.Base.{
  arith, ℕ, ◌+◌, ◌-◌, ◌≡◌, refl, ap, sym, Bool, true, false, ◌&&◌, not, List, [], ◌∷◌, ◌++◌, Option,
  none, some, Bytes, inl, inr, if◌then◌else◌, ltb, All, subst,
}
use eltex_practice.Resources.{
  Resource, descriptor, child, Effect, takes, frees, before, Frees, Released, Settles, if_both,
  Option-both, Settles-all, Settles-append, Settles-takes,
}
use eltex_practice.Copier.Loops.{copy_loop}
use eltex_practice.Copier.Processes.{
  ParentAnswers, Parent, run_parent_process, send_header, send_file, header_bytes, is_ready,
  exited_zero, header_size,
}
use eltex_practice.Copier.Copy.{Answers, copy_by_pipe, copy_file, work}

abbrev result : Parent → Option Bool × List Effect
result run = (run.status, run.effects)

-- The two ends of a pipe have numbers beside each other.
abbrev pub IsBeside : Option (ℕ × ℕ) → Type 0
IsBeside none = Unit {0}
IsBeside (some (reading, writing)) = writing ≡ reading + 1

-- What copying without named pipes relies on; that the ends are beside each other is promised nowhere.
abbrev pub IsOrdinary : Answers → Type 0
IsOrdinary a = (a.fork_works ≡ true) × IsBeside a.pipe_data × IsBeside a.pipe_sync

Option-beside {ℓ} :
    {B : Type ℓ} (P : B → Type 0) (o : Option (ℕ × ℕ)) (x : B) (f : ℕ × ℕ → B)
    → IsBeside o
    → P x
    → ((r : ℕ) → P (f (r, r + 1)))
    → P (elim o [ none ↦ x | some e ↦ f e ])
Option-beside P none x f b h k = h
Option-beside P (some (r, w)) x f b h k = subst (λ w. P (f (r, w))) (sym b) (k r)

if_false {ℓ} :
    {A : Type ℓ} (P : A → Type 0) (b : Bool) (x y : A) → b ≡ false → P y → P (if b then x else y)
if_false P b x y e h = rw (e) h

-- The parent's work gives back both descriptors and the child.
module _ (p : ParentAnswers) (ok : Bool) (e : (copy_loop p.reads p.writes).ended ≡ some ok) where
  send_file-Settles :
      (fd_in data_fd : ℕ) (header : Bytes)
      → Settles
          (descriptor fd_in ∷ descriptor data_fd ∷ child ∷ [])
          (result (send_file p fd_in data_fd header))
  unfolding send_file
  send_file-Settles fd_in data_fd header =
      rw (e) (
        Settles-all (descriptor fd_in ∷ descriptor data_fd ∷ child ∷ []) (ok && exited_zero p.wait))

  send_header-Settles :
      (fd_in data_fd : ℕ) (header : Bytes)
      → Settles
          (descriptor fd_in ∷ descriptor data_fd ∷ child ∷ [])
          (result (send_header p fd_in data_fd header))
  unfolding send_header
  send_header-Settles fd_in data_fd header =
      let held = descriptor fd_in ∷ descriptor data_fd ∷ child ∷ [] in
      Option-both (λ run. Settles held (result run)) p.header_write _ _ (Settles-all held false)
        λ n.
          if_both (λ run. Settles held (result run)) (ltb n header_size) _ _
            (Settles-all held false) (send_file-Settles fd_in data_fd header)

  run_parent_process-Settles :
      (data_fd sync_fd : ℕ) (src : Bytes)
      → Settles
          (descriptor data_fd ∷ descriptor sync_fd ∷ child ∷ [])
          (result (run_parent_process p data_fd sync_fd src))
  unfolding run_parent_process
  run_parent_process-Settles data_fd sync_fd src =
      let held = descriptor data_fd ∷ descriptor sync_fd ∷ child ∷ [] in
      let Clean : Parent → Type 0 = λ run. Settles held (result run) in
      Option-both Clean p.fd_in _ _ (Settles-all held false) λ fd_in.
        let failed =
          Settles-takes (descriptor fd_in) held _ (Settles-all (descriptor fd_in ∷ held) false) in
        Option-both Clean p.file_size _ _ failed λ size.
          let sent = send_header-Settles fd_in data_fd (header_bytes src size) in
          if_both Clean (is_ready p.ready) _ _
            (record {
              ended = sent.ended;
              freed = (inr sent.freed.1.0, (inl refl, (inr sent.freed.1.1.0, tt)));
              released = (inr sent.freed.0, sent.released);
            })
            failed

  work-Settles :
      (a : Answers) (data_fd sync_fd : ℕ) (src : Bytes) (held : List Resource) (end : List Effect)
      → a.parent ≡ p
      → All (λ q. Frees q end) held
      → Released end
      → Settles
          (descriptor data_fd ∷ descriptor sync_fd ∷ child ∷ held)
          (work a src data_fd sync_fd end)
  work-Settles a data_fd sync_fd src held end q f r =
      let run = run_parent_process a.parent data_fd sync_fd src in
      let own = descriptor data_fd ∷ descriptor sync_fd ∷ child ∷ [] in
      let clean : Settles own (result run) =
        subst (λ p. Settles own (result (run_parent_process p data_fd sync_fd src))) (sym q)
          (run_parent_process-Settles data_fd sync_fd src) in
      let same : work a src data_fd sync_fd end ≡ (run.status, run.effects ++ end) =
        ap
          (λ status. (
            run.status,
            run.effects ++ elim status as (λ _. List Effect) [ none ↦ [] | some ok ↦ end ],
          ))
          clean.ended.1 in
      subst (Settles (own ++ held)) (sym same) (Settles-append own held (result run) end clean f r)

  -- The parent behind `fork`, with pipes.
  forked :
      (a : Answers) (src : Bytes)
      → a.parent ≡ p
      → (r s : ℕ)
      → Settles
          (child ∷ descriptor (s + 1) ∷ descriptor s ∷ descriptor (r + 1) ∷ descriptor r ∷ [])
          (before
            (frees (descriptor r) ∷ frees (descriptor (s + 1)) ∷ [])
            (work a src (r + 1) (s + 1 - 1) []))
  forked a src q r s =
      let beside : s + 1 - 1 ≡ s = omega arith in
      let w = work-Settles a (r + 1) (s + 1 - 1) src [] [] q tt tt in
      record {
        ended = w.ended;
        freed = (
          inr (inr w.freed.1.1.0),
          (
            inr (inl refl),
            (
              inr (
                  inr (
                    subst (λ n. Frees (descriptor n) (work a src (r + 1) (s + 1 - 1) []).1) beside
                      w.freed.1.0)),
              (inr (inr w.freed.0), (inl refl, tt)),
            ),
          ),
        );
        released = w.released;
      }

  -- Over pipes the same holds where `fork` works and the ends of each pipe have numbers beside each other.
  pub copy_by_pipe-Settles :
      (a : Answers) (src : Bytes) → a.parent ≡ p → IsOrdinary a → Settles [] (copy_by_pipe a src)
  unfolding copy_by_pipe
  copy_by_pipe-Settles a src q (forks, beside_data, beside_sync) =
      Option-beside (Settles []) a.pipe_data _ _ beside_data
        (record { ended = (false, refl); freed = tt; released = tt })
        λ r. Settles-takes (descriptor r) [] _ (
          Settles-takes (descriptor (r + 1)) _ _ (
            Option-beside (Settles (descriptor (r + 1) ∷ descriptor r ∷ [])) a.pipe_sync _ _
              beside_sync
              (record {
                ended = (false, refl);
                freed = (inr (inl refl), (inl refl, tt));
                released = tt;
              })
              λ s. Settles-takes (descriptor s) _ _ (
                Settles-takes (descriptor (s + 1)) _ _ (
                  if_false
                    (Settles
                      (descriptor (s + 1) ∷ descriptor s ∷ descriptor (r + 1) ∷ descriptor r ∷ []))
                    (not a.fork_works) _ _ (ap not forks)
                    (Settles-takes child _ _ (forked a src q r s))))))

-- A `fork` that fails leaves the other ends of both pipes open.
pub fork_failure-leaks :
    (a : Answers) (src : Bytes) (r s : ℕ)
    → a.pipe_data ≡ some (r, r + 1)
    → a.pipe_sync ≡ some (s, s + 1)
    → a.fork_works ≡ false
    → copy_file a src none ≡ (
      some false,
      takes (descriptor r)
          ∷ takes (descriptor (r + 1))
          ∷ takes (descriptor s)
          ∷ takes (descriptor (s + 1))
          ∷ frees (descriptor r)
          ∷ frees (descriptor (s + 1))
          ∷ [],
    )
unfolding copy_file copy_by_pipe
fork_failure-leaks a src r s d y f = rw (d) (rw (y) (rw (f) refl))
