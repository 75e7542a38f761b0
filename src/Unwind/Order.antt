-- ===== src/Unwind/Order.antt =====
-- The loop over the inverses: none is skipped, each runs once, and the first error is told.
use stc_go.Base.{
  ℕ, ◌≡◌, refl, sym, ap, ◌∙◌, Option, none, some, or_else, List, [], ◌∷◌, ◌++◌, arith, append_nil,
}
use mathlib.Core.List.{append_assoc}
use stc_go.Key.{Error}
use stc_go.Store.{
  Deed, undone, Inverse, unprovide, unisolate, unintercept, unlisten, user, ProvKey, ProvideEntry,
  Shared, notify_orch,
}
use stc_go.Services.{remove_provide, put_entries}
use stc_go.Unwind.{run_inverse, run_inverses}

-- The callers' inverses among the closures, as they are logged when they run.
abbrev pub undone_by : List Inverse → List Deed
undone_by [] = []
undone_by (user n ∷ is) = undone n ∷ undone_by is
undone_by (_ ∷ is) = undone_by is

deeds-put :
    (pk : ProvKey) (es : List ProvideEntry) (s : Shared) → (put_entries pk es s).deeds ≡ s.deeds
unfolding put_entries
deeds-put pk [] s = refl
deeds-put pk (e ∷ es) s = refl

deeds-notify : (s : Shared) → (notify_orch s).deeds ≡ s.deeds
unfolding notify_orch
deeds-notify s = ground arith

deeds-remove_provide :
    (s : Shared) (pk : ProvKey) (e : ProvideEntry) → (remove_provide s pk e).deeds ≡ s.deeds
unfolding remove_provide notify_orch
deeds-remove_provide s pk e = ground (arith, λ (es : List ProvideEntry). deeds-put pk es s)

module _ (outcome : ℕ → Option Error) where
  -- The first error of the callers' inverses; the package's own closures return none.
  abbrev pub first_error : List Inverse → Option Error
  first_error [] = none
  first_error (user n ∷ is) = or_else (outcome n) (first_error is)
  first_error (_ ∷ is) = first_error is

  or_else_assoc {ℓ} :
      {A : Type ℓ} (a b c : Option A) → or_else (or_else a b) c ≡ or_else a (or_else b c)
  or_else_assoc none b c = refl
  or_else_assoc (some x) b c = refl

  or_else-none {ℓ} : {A : Type ℓ} (a : Option A) → or_else a none ≡ a
  or_else-none none = refl
  or_else-none (some x) = refl

  -- An inverse that fails stops none of the others: every caller's inverse runs once, in the order
  -- of the list, and the first error is the result.
  pub run_inverses-deeds :
      (s : Shared) (is : List Inverse) (first : Option Error)
      → ((run_inverses outcome s is first).1.deeds ≡ s.deeds ++ undone_by is)
        × ((run_inverses outcome s is first).0 ≡ or_else first (first_error is))
  unfolding run_inverses run_inverse
  run_inverses-deeds s [] first = (sym (append_nil s.deeds), sym (or_else-none first))
  run_inverses-deeds s (unprovide pk e ∷ is) first =
      let (d, x) = run_inverses-deeds (remove_provide s pk e) is (or_else first none) in
      (
        d ∙ ap (λ (l : List Deed). l ++ undone_by is) (deeds-remove_provide s pk e),
        x ∙ ap (λ o. or_else o (first_error is)) (or_else-none first),
      )
  run_inverses-deeds s (unisolate c k ∷ is) first =
      let (d, x) =
        run_inverses-deeds (run_inverse outcome s (unisolate c k)).1 is (or_else first none) in
      (d, x ∙ ap (λ o. or_else o (first_error is)) (or_else-none first))
  run_inverses-deeds s (unintercept c k id ∷ is) first =
      let (d, x) =
        run_inverses-deeds (run_inverse outcome s (unintercept c k id)).1 is (or_else first none) in
      (d, x ∙ ap (λ o. or_else o (first_error is)) (or_else-none first))
  run_inverses-deeds s (unlisten n id ∷ is) first =
      let (d, x) =
        run_inverses-deeds (run_inverse outcome s (unlisten n id)).1 is (or_else first none) in
      (d, x ∙ ap (λ o. or_else o (first_error is)) (or_else-none first))
  run_inverses-deeds s (user n ∷ is) first =
      let (d, x) =
        run_inverses-deeds (run_inverse outcome s (user n)).1 is (or_else first (outcome n)) in
      (
        d ∙ append_assoc s.deeds (undone n ∷ []) (undone_by is),
        x ∙ or_else_assoc first (outcome n) (first_error is),
      )
