-- ===== src/Unwind/Silence.antt =====
-- Unwinding bears on no fiber: it may wake the orchestrator, and that is all.
use stc_go.Base.{
  ℕ, zero, suc, Option, none, List, [], ◌∷◌, reverse, or_else, arith, Bool-cases, inl, inr,
}
use stc_go.Key.{Error}
use stc_go.Scope.{detach}
use stc_go.Store.{Inverse, Shared}
use stc_go.Unwind.{run_inverse, run_inverses, begin_unwind, unwind_all, unwind_with, unwind}
use stc_go.Orchestrator.Quiet.{Quiet, Quiet-refl, Quiet-trans, unchanged, run_inverse-Quiet}

module _ (outcome : ℕ → Option Error) where
  run_inverses-Quiet :
      (s : Shared) (is : List Inverse) (first : Option Error)
      → Quiet s (run_inverses outcome s is first).1
  unfolding run_inverses
  run_inverses-Quiet s [] first = Quiet-refl s
  run_inverses-Quiet s (i ∷ is) first =
      let (e, t) = run_inverse outcome s i in
      Quiet-trans {t = t} (run_inverse-Quiet outcome s i)
        (run_inverses-Quiet t is (or_else first e))

  begin_unwind-Quiet : (s : Shared) (c : ℕ) → Quiet s (begin_unwind outcome s c)
  unfolding begin_unwind detach
  begin_unwind-Quiet s c =
      unchanged s _ (λ g. ground arith) (ground arith) (ground arith) (ground arith) (ground arith)
        (ground arith) (ground arith) (λ o h. ground arith) (ground arith) (ground arith)

  unwind_all-Quiet :
      (one : Shared → ℕ → Option Error × Shared)
      → ((s : Shared) (c : ℕ) → Quiet s (one s c).1)
      → (s : Shared) (cs : List ℕ) (first : Option Error)
      → Quiet s (unwind_all outcome one s cs first).1
  unfolding unwind_all
  unwind_all-Quiet one q s [] first = Quiet-refl s
  unwind_all-Quiet one q s (c ∷ cs) first =
      let (e, t) = one s c in
      Quiet-trans {t = t} (q s c) (unwind_all-Quiet one q t cs (or_else first e))

  unwind_with-Quiet : (fuel : ℕ) (s : Shared) (c : ℕ) → Quiet s (unwind_with outcome fuel s c).1
  unfolding unwind_with
  unwind_with-Quiet zero s c = Quiet-refl s
  unwind_with-Quiet (suc fuel) s c = elim (Bool-cases (s.contexts c).unwinding) [
    | inl e ↦ rw (e, unwind_with) (Quiet-refl s)
    | inr e ↦
        let b = begin_unwind outcome s c in
        let t =
          (unwind_all outcome (unwind_with outcome fuel) b (reverse (s.contexts c).children)
            none).1 in
        rw (e, unwind_with)
          (Quiet-trans {t = b} (begin_unwind-Quiet s c) (
            Quiet-trans {t = t}
              (unwind_all-Quiet (unwind_with outcome fuel) (unwind_with-Quiet fuel) b
                (reverse (s.contexts c).children) none)
              (run_inverses-Quiet t (reverse (s.contexts c).inverses) _)))
  ]

  pub unwind-Quiet : (s : Shared) (c : ℕ) → Quiet s (unwind outcome s c).1
  unfolding unwind
  unwind-Quiet s c = unwind_with-Quiet s.next_context s c
