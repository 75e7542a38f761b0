-- ===== src/Unwind/Hush.antt =====
-- Unwinding leaves no listener of the scopes that it marks.
use stc_go.Base.{
  ℕ, zero, suc, ◌≡◌, refl, sym, ◌∙◌, subst, Option, none, List, [], ◌∷◌, inl, inr, All-imp, All-zip,
  All-every, In, In-reverse, arith, reverse, ◌==◌, true, false, or_else, Bool-cases,
}
use stc_go.Key.{Text, Error}
use stc_go.Store.{Shared, Inverse, unlisten, ListenerEntry}
use stc_go.Unwind.{run_inverses, begin_unwind, unwind_all, unwind_with, unwind}
use stc_go.Unwind.Spared.{
  unw, IsRecoverable, Unwound, Unwound-IsRecoverable, Unwound-refl, Unwound-trans,
}
use stc_go.Unwind.Subtree.{begin-scope, run_inverses-scope, begin-IsRecoverable, finish-Unwound}
use stc_go.Unwind.Listeners.{
  Attended, IsAttended, Thinner, Thinner-same, Thinner-trans, Silenced, run_inverses-Thinner,
  run_inverses-withdraws, begin-heard, begin-IsAttended,
}

-- Unwinding, of a state that can be recovered and whose listeners can be withdrawn.
pub record Hushed (s t : Shared) : Type 1 where
  pub unwound : Unwound s t
  pub thinner : Thinner s t
  pub silenced : Silenced s t

Hushed-IsAttended : (s t : Shared) → Hushed s t → IsAttended s → IsAttended t
Hushed-IsAttended s t w v = record {
  attended = λ q.
      All-imp _ _
        (λ l h live. rw (w.unwound.kept l.owner live) (h (ground (arith, w.unwound.grows l.owner))))
        _ (w.thinner.fewer q _ (v.attended q));
  ascending = λ q. w.thinner.ascending q 0 (v.ascending q);
}

Hushed-refl : (s : Shared) → Hushed s s
Hushed-refl s = record {
  unwound = Unwound-refl s;
  thinner = Thinner-same s s (λ q. refl);
  silenced = λ q. All-every _ (λ l h. h) _;
}

Hushed-trans : {s t u : Shared} → Hushed s t → Hushed t u → Hushed s u
Hushed-trans {s} {t} {u} a b = record {
  unwound = Unwound-trans s t u a.unwound b.unwound;
  thinner = Thinner-trans a.thinner b.thinner;
  silenced = λ q.
      All-imp _ _ (λ l k h. k.0 (k.1 h)) _
        (All-zip _ _ _ (b.thinner.fewer q _ (a.silenced q)) (b.silenced q));
}

-- What unwinding asks of a state.
pub record IsReady (s : Shared) : Type 0 where
  pub whole : IsRecoverable s
  pub tended : IsAttended s

Hushed-IsReady : (s t : Shared) → Hushed s t → IsReady s → IsReady t
Hushed-IsReady s t w v = record {
  whole = Unwound-IsRecoverable s t w.unwound v.whole;
  tended = Hushed-IsAttended s t w v.tended;
}

module _ (outcome : ℕ → Option Error) where
  finish-Hushed :
      (s t : Shared) (c : ℕ) (first : Option Error)
      → unw s c ≡ false
      → IsReady s
      → Hushed (begin_unwind outcome s c) t
      → Hushed s (run_inverses outcome t (reverse (s.contexts c).inverses) first).1
  finish-Hushed s t c first live v w = record {
    unwound = finish-Unwound outcome s t c first live v.whole w.unwound;
    thinner = Thinner-trans {t = t} before after;
    silenced = λ q.
        let out =
          run_inverses-withdraws outcome t is first q
            (before.ascending q 0 (v.tended.ascending q)) in
        All-imp _ _ (λ l k dead. silent l q k.0.0 k.0.1 k.1 dead) _
          (All-zip _ _ _
            (All-zip _ _ _ (after.fewer q _ (before.fewer q _ (v.tended.attended q))) out)
            (after.fewer q _ (w.silenced q)));
  }
    where
      is : List Inverse
      is = reverse (s.contexts c).inverses

      u : Shared
      u = (run_inverses outcome t is first).1

      before : Thinner s t
      before =
          Thinner-trans {t = begin_unwind outcome s c}
            (Thinner-same s (begin_unwind outcome s c) (begin-heard outcome s c)) w.thinner

      after : Thinner t u
      after = run_inverses-Thinner outcome t is first

      silent :
          (l : ListenerEntry) (q : Text)
          → Attended s q l
          → (In (unlisten q l.id) is → ⊥)
          → (unw t l.owner ≡ true → unw (begin_unwind outcome s c) l.owner ≡ true)
          → unw u l.owner ≡ true
          → unw s l.owner ≡ true
      silent l q h out k dead = elim (Bool-cases (c == l.owner)) [
        | inl e ↦
            let c≡o : c ≡ l.owner = ground arith in
            absurd (
              out (
                subst (λ o. In (unlisten q l.id) (reverse (s.contexts o).inverses)) (sym c≡o)
                  (In-reverse _ _ (h (subst (λ o. unw s o ≡ false) c≡o live)))))
        | inr e ↦
            let m = k (sym (run_inverses-scope outcome t is first l.owner).0 ∙ dead) in
            ground (arith, begin-scope outcome s c l.owner)
      ]

  unwind_all-Hushed :
      (one : Shared → ℕ → Option Error × Shared)
      → ((s : Shared) (c : ℕ) → IsReady s → Hushed s (one s c).1)
      → (s : Shared) (cs : List ℕ) (first : Option Error) → IsReady s
      → Hushed s (unwind_all outcome one s cs first).1
  unfolding unwind_all
  unwind_all-Hushed one h s [] first v = Hushed-refl s
  unwind_all-Hushed one h s (c ∷ cs) first v =
      let (e, s') = one s c in
      let w = h s c v in
      Hushed-trans {t = s'} w
        (unwind_all-Hushed one h s' cs (or_else first e) (Hushed-IsReady s s' w v))

  unwind_with-Hushed :
      (fuel : ℕ) (s : Shared) (c : ℕ) → IsReady s → Hushed s (unwind_with outcome fuel s c).1
  unfolding unwind_with
  unwind_with-Hushed zero s c v = Hushed-refl s
  unwind_with-Hushed (suc fuel) s c v = elim (Bool-cases (unw s c)) [
    | inl e ↦ rw (e, unwind_with) (Hushed-refl s)
    | inr e ↦
        rw (e, unwind_with)
          (finish-Hushed s _ c _ e v (
            unwind_all-Hushed (unwind_with outcome fuel) (unwind_with-Hushed fuel)
              (begin_unwind outcome s c) (reverse (s.contexts c).children) none
              (record {
                whole = begin-IsRecoverable outcome s c v.whole;
                tended = begin-IsAttended outcome s c v.tended;
              })))
  ]

  pub unwind-Hushed : (s : Shared) (c : ℕ) → IsReady s → Hushed s (unwind outcome s c).1
  unfolding unwind
  unwind-Hushed s c v = unwind_with-Hushed s.next_context s c v
