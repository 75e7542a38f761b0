-- ===== src/Unwind/Subtree.antt =====
-- Recovery exactness for a whole subtree, whatever its shape and depth.
use stc_go.Base.{
  ℕ, zero, suc, ◌<◌, ◌≡◌, refl, ◌∙◌, ap, Option, none, List, [], ◌∷◌, inl, inr, All, In, In-reverse,
  All-reverse, arith, reverse, ◌==◌, if◌then◌else◌, true, false, or_else, Bool-cases, subst,
}
use stc_go.Key.{Error}
use stc_go.Store.{
  ProvKey, ProvideEntry, Shared, Inverse, unprovide, unisolate, unintercept, unlisten, user,
  entries,
}
use stc_go.Services.Entries.{contexts-remove_provide}
use stc_go.Scope.{detach}
use stc_go.Unwind.{run_inverse, run_inverses, begin_unwind, unwind_all, unwind_with, unwind}
use stc_go.Unwind.Recovery.{others, IsOf, Covered, Tracked, provides-run_inverses}
use stc_go.Unwind.Spared.{
  unw, survivors, spared, IsRecoverable, Unwound, others-survivors, All-survivors,
  IsRising-survivors, Unwound-refl, Unwound-trans, Unwound-IsRecoverable, own-begin,
}

module _ (outcome : ℕ → Option Error) where
  pub begin-scope :
      (s : Shared) (c o : ℕ)
      → (unw (begin_unwind outcome s c) o ≡ (if c == o then true else unw s o))
        × (((begin_unwind outcome s c).contexts o).inverses
            ≡ (if c == o then [] else (s.contexts o).inverses))
  unfolding begin_unwind detach
  begin-scope s c o = ground arith

  begin-provides : (s : Shared) (c : ℕ) → (begin_unwind outcome s c).provides ≡ s.provides
  unfolding begin_unwind detach
  begin-provides s c = ground arith

  -- Running closures marks no scope and touches no scope's closures.
  run_inverse-scope :
      (s : Shared) (i : Inverse) (o : ℕ)
      → (unw (run_inverse outcome s i).1 o ≡ unw s o)
        × (((run_inverse outcome s i).1.contexts o).inverses ≡ (s.contexts o).inverses)
  unfolding run_inverse
  run_inverse-scope s (unprovide pk e) o = ground (arith, contexts-remove_provide s pk e)
  run_inverse-scope s (unisolate x k) o = ground arith
  run_inverse-scope s (unintercept x k id) o = ground arith
  run_inverse-scope s (unlisten n id) o = (refl, refl)
  run_inverse-scope s (user n) o = (refl, refl)

  pub run_inverses-scope :
      (s : Shared) (is : List Inverse) (first : Option Error) (o : ℕ)
      → (unw (run_inverses outcome s is first).1 o ≡ unw s o)
        × (((run_inverses outcome s is first).1.contexts o).inverses ≡ (s.contexts o).inverses)
  unfolding run_inverses
  run_inverses-scope s [] first o = (refl, refl)
  run_inverses-scope s (i ∷ is) first o =
      let (e, s') = run_inverse outcome s i in
      let rest = run_inverses-scope s' is (or_else first e) o in
      let here = run_inverse-scope s i o in (rest.0 ∙ here.0, rest.1 ∙ here.1)

  unwind_all-Unwound :
      (one : Shared → ℕ → Option Error × Shared)
      → ((s : Shared) (c : ℕ) → IsRecoverable s → Unwound s (one s c).1)
      → (s : Shared) (cs : List ℕ) (first : Option Error) → IsRecoverable s
      → Unwound s (unwind_all outcome one s cs first).1
  unfolding unwind_all
  unwind_all-Unwound one h s [] first r = Unwound-refl s
  unwind_all-Unwound one h s (c ∷ cs) first r =
      let (e, s') = one s c in
      let w = h s c r in
      Unwound-trans s s' _ w
        (unwind_all-Unwound one h s' cs (or_else first e) (Unwound-IsRecoverable s s' w r))

  -- A scope that is still live is another one, with its closures.
  pub begin_live :
      (s : Shared) (c o : ℕ) (i : Inverse)
      → (unw s o ≡ false → In i (s.contexts o).inverses)
      → unw (begin_unwind outcome s c) o ≡ false
      → In i ((begin_unwind outcome s c).contexts o).inverses
  begin_live s c o i h live = elim (Bool-cases (c == o)) [
    | inl e ↦ absurd (ground (arith, begin-scope s c o))
    | inr e ↦ rw ((begin-scope s c o).1, e) (h (ground (arith, begin-scope s c o)))
  ]

  pub begin-IsRecoverable :
      (s : Shared) (c : ℕ) → IsRecoverable s → IsRecoverable (begin_unwind outcome s c)
  begin-IsRecoverable s c r = record {
    covered = λ pk. rw (begin-provides s c) (covers pk (entries s.provides pk) (r.covered pk));
    own = λ o. rw (begin-scope s c o).1 (mine o);
    rising = λ pk. rw (begin-provides s c) (r.rising pk);
  }
    where
      covers :
          (pk : ProvKey) (es : List ProvideEntry)
          → All (λ e. unw s e.owner ≡ false → In (unprovide pk e) (s.contexts e.owner).inverses) es
          → All
              (λ e.
                unw (begin_unwind outcome s c) e.owner ≡ false
                → In (unprovide pk e) ((begin_unwind outcome s c).contexts e.owner).inverses)
              es
      covers pk [] h = tt
      covers pk (x ∷ xs) h = (begin_live s c x.owner (unprovide pk x) h.0, covers pk xs h.1)

      mine : (o : ℕ) → All (IsOf o) (if c == o then [] else (s.contexts o).inverses)
      mine o = own-begin c o (s.contexts o).inverses (r.own o)

  Covered-by :
      (s t : Shared) (c : ℕ) (pk : ProvKey) (es : List ProvideEntry)
      → unw s c ≡ false
      → All (λ e. unw s e.owner ≡ false → In (unprovide pk e) (s.contexts e.owner).inverses) es
      → All (Covered c pk (reverse (s.contexts c).inverses)) es
  Covered-by s t c pk [] live h = tt
  Covered-by s t c pk (x ∷ xs) live h = (
    λ e.
        In-reverse _ _
          (subst (λ o. unw s o ≡ false → In (unprovide pk x) (s.contexts o).inverses) e h.0 live),
    Covered-by s t c pk xs live h.1,
  )

  -- The last part of `unwind`: the scope's own closures, after its subtrees.
  pub finish-Unwound :
      (s t : Shared) (c : ℕ) (first : Option Error)
      → unw s c ≡ false
      → IsRecoverable s
      → Unwound (begin_unwind outcome s c) t
      → Unwound s (run_inverses outcome t (reverse (s.contexts c).inverses) first).1
  finish-Unwound s t c first live r w = record {
    exact = exact;
    grows = λ o h. (scope o).0 ∙ w.grows o (ground (arith, begin-scope s c o));
    kept = λ o h. ground (arith, scope o, begin-scope s c o, w.grows o, w.kept o);
    own = λ o h.
        rw (scope o).1
          (w.own o (rw (begin-scope s c o).1 (own-begin c o (s.contexts o).inverses h)));
  }
    where
      u : Shared
      u = (run_inverses outcome t (reverse (s.contexts c).inverses) first).1

      scope : (o : ℕ) → (unw u o ≡ unw t o) × ((u.contexts o).inverses ≡ (t.contexts o).inverses)
      scope o = run_inverses-scope t (reverse (s.contexts c).inverses) first o

      mid :
          (pk : ProvKey)
          → entries t.provides pk
            ≡ survivors (spared (begin_unwind outcome s c) t) (entries s.provides pk)
      mid pk =
          w.exact pk
          ∙ ap (λ p. survivors (spared (begin_unwind outcome s c) t) (entries p pk))
              (begin-provides s c)

      tracked : Tracked t.provides c (reverse (s.contexts c).inverses)
      tracked = record {
        covered =
            λ pk. rw (mid pk) (All-survivors _ _ _ (Covered-by s t c pk _ live (r.covered pk)));
        rising = λ pk. rw (mid pk) (IsRising-survivors _ 0 _ (r.rising pk));
      }

      pointwise :
          (o : ℕ) → (if o == c then false else spared (begin_unwind outcome s c) t o) ≡ spared s u o
      pointwise o = ground (arith, scope o, begin-scope s c o, w.grows o)

      exact :
          (pk : ProvKey) → entries u.provides pk ≡ survivors (spared s u) (entries s.provides pk)
      exact pk =
          provides-run_inverses outcome t c _ first tracked (All-reverse (IsOf c) _ (r.own c)) pk
          ∙ ap (others c) (mid pk)
          ∙ others-survivors c _ (spared s u) (entries s.provides pk) pointwise

  -- At any fuel: what was unwound is out, the rest is untouched.
  unwind_with-Unwound :
      (fuel : ℕ) (s : Shared) (c : ℕ) → IsRecoverable s → Unwound s (unwind_with outcome fuel s c).1
  unfolding unwind_with
  unwind_with-Unwound zero s c r = Unwound-refl s
  unwind_with-Unwound (suc fuel) s c r = elim (Bool-cases (unw s c)) [
    | inl e ↦ rw (e, unwind_with) (Unwound-refl s)
    | inr e ↦
        rw (e, unwind_with)
          (finish-Unwound s _ c _ e r (
            unwind_all-Unwound (unwind_with outcome fuel) (unwind_with-Unwound fuel)
              (begin_unwind outcome s c) (reverse (s.contexts c).children) none
              (begin-IsRecoverable s c r)))
  ]

  unw-unwind_with :
      (fuel : ℕ) (s : Shared) (c : ℕ)
      → 0 < fuel
      → IsRecoverable s
      → unw (unwind_with outcome fuel s c).1 c ≡ true
  unfolding unwind_with
  unw-unwind_with zero s c h r = elim h [ ]
  unw-unwind_with (suc fuel) s c h r = elim (Bool-cases (unw s c)) [
    | inl e ↦ rw (e, unwind_with) e
    | inr e ↦
        let w =
          unwind_all-Unwound (unwind_with outcome fuel) (unwind_with-Unwound fuel)
            (begin_unwind outcome s c) (reverse (s.contexts c).children) none
            (begin-IsRecoverable s c r) in
        rw (e, unwind_with)
          ((run_inverses-scope _ (reverse (s.contexts c).inverses) _ c).0
            ∙ w.grows c (ground (arith, begin-scope s c c)))
  ]

  -- Unwinding an allocated scope of a recoverable state marks it, and leaves of every key exactly
  -- the entries of the scopes that it did not unwind, in their order.
  pub unwind-entries :
      (s : Shared) (c : ℕ) (pk : ProvKey)
      → c < s.next_context
      → IsRecoverable s
      → (unw (unwind outcome s c).1 c ≡ true)
        × (entries (unwind outcome s c).1.provides pk
            ≡ survivors (spared s (unwind outcome s c).1) (entries s.provides pk))
  unfolding unwind
  unwind-entries s c pk h r = (
    unw-unwind_with s.next_context s c (omega arith) r,
    (unwind_with-Unwound s.next_context s c r).exact pk,
  )
