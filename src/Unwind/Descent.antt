-- ===== src/Unwind/Descent.antt =====
-- Unwinding a scope reaches every scope below it, whatever the shape of the tree.
use stc_go.Base.{
  ℕ, zero, suc, ◌+◌, ◌<◌, ◌≤◌, ◌≡◌, refl, sym, Option, none, List, [], ◌∷◌, inl, inr, All, In,
  In-reverse, All-reverse, arith, reverse, true, or_else, Bool-cases, subst,
}
use stc_go.Key.{Error}
use stc_go.Store.{Shared}
use stc_go.Unwind.{run_inverses, begin_unwind, unwind_all, unwind_with, unwind}
use stc_go.Unwind.Spared.{unw}
use stc_go.Unwind.Spread.{
  children, IsTree, Spread, Spread-trans, Spread-same, run_inverses-Spread, begin-tree, begin-shed,
  own_mark, finish-Spread,
}

-- The scopes of the subtree under `c`.
pub data Below (s : Shared) (c : ℕ) : ℕ → Type 0 where
  itself : Below s c c
  under : {x d : ℕ} → Below s c x → In d (children s x) → Below s c d

abbrev Younger : Shared → Type 0
Younger s = (x : ℕ) → All (λ d. (x < d) × (d < s.next_context)) (children s x)

module _ (outcome : ℕ → Option Error) where
  -- What unwinding one scope does, where the fuel covers the scopes that are younger.
  abbrev Reaches : ℕ → (Shared → ℕ → Option Error × Shared) → Type 1
  Reaches fuel one =
      (s : Shared) (c : ℕ)
      → Younger s
      → s.next_context ≤ c + fuel
      → Spread s (one s c).1 × (c < s.next_context → unw (one s c).1 c ≡ true)

  Spread-Younger : (s t : Shared) → Spread s t → Younger s → Younger t
  Spread-Younger s t w y x = rw w.next (w.shed (λ d. (x < d) × (d < s.next_context)) x (y x))

  unwind_all-Reaches :
      (fuel : ℕ) (one : Shared → ℕ → Option Error × Shared)
      → Reaches fuel one
      → (s : Shared) (cs : List ℕ) (first : Option Error) → Younger s
      → All (λ d. (d < s.next_context) × (s.next_context ≤ d + fuel)) cs
      → Spread s (unwind_all outcome one s cs first).1
        × All (λ d. unw (unwind_all outcome one s cs first).1 d ≡ true) cs
  unfolding unwind_all
  unwind_all-Reaches fuel one h s [] first y a =
      (Spread-same s s refl refl (λ x. (refl, refl)) (λ x. refl), tt)
  unwind_all-Reaches fuel one h s (c ∷ cs) first y a =
      let (e, t) = one s c in
      let here = h s c y a.0.1 in
      let w : Spread s t = here.0 in
      let rest =
        unwind_all-Reaches fuel one h t cs (or_else first e) (Spread-Younger s t w y)
          (rw w.next a.1) in
      (Spread-trans {t = t} w rest.0, (rest.0.grows c (here.1 a.0.0), rest.1))

  begin-Younger : (s : Shared) (c : ℕ) → Younger s → Younger (begin_unwind outcome s c)
  begin-Younger s c y x =
      rw (begin-tree outcome s c c).3
        (begin-shed outcome s c (λ d. (x < d) × (d < s.next_context)) x (y x))

  All-In : (P : ℕ → Type 0) (d : ℕ) (xs : List ℕ) → All P xs → In d xs → P d
  All-In P d [] a m = absurd m
  All-In P d (x ∷ xs) a (inl e) = subst P (sym e) a.0
  All-In P d (x ∷ xs) a (inr m) = All-In P d xs a.1 m

  All-covered :
      (c n fuel : ℕ) (cs : List ℕ)
      → n ≤ c + suc fuel
      → All (λ d. (c < d) × (d < n)) cs
      → All (λ d. (d < n) × (n ≤ d + fuel)) cs
  All-covered c n fuel [] h a = tt
  All-covered c n fuel (x ∷ xs) h a =
      ((a.0.1, omega (arith, h, a.0.0)), All-covered c n fuel xs h a.1)

  unwind_with-Reaches : (fuel : ℕ) → Reaches fuel (unwind_with outcome fuel)
  unfolding unwind_with
  unwind_with-Reaches zero s c y h =
      (Spread-same s s refl refl (λ x. (refl, refl)) (λ x. refl), λ k. absurd (omega (arith, h, k)))
  unwind_with-Reaches (suc fuel) s c y h = elim (Bool-cases (unw s c)) [
    | inl e ↦
        rw (e, unwind_with) (Spread-same s s refl refl (λ x. (refl, refl)) (λ x. refl), λ k. e)
    | inr e ↦
        let b = begin_unwind outcome s c in
        let cs = reverse (children s c) in
        let n : b.next_context ≡ s.next_context = (begin-tree outcome s c c).3 in
        let mid = unwind_all outcome (unwind_with outcome fuel) b cs none in
        let all =
          unwind_all-Reaches fuel (unwind_with outcome fuel) (unwind_with-Reaches fuel) b cs none
            (begin-Younger s c y)
            (rw n (
              All-reverse (λ d. (d < s.next_context) × (s.next_context ≤ d + fuel)) (children s c)
                (All-covered c s.next_context fuel (children s c) h (y c)))) in
        let own = run_inverses-Spread outcome mid.1 (reverse (s.contexts c).inverses) mid.0 in
        let rest : Spread b (run_inverses outcome mid.1 (reverse (s.contexts c).inverses) mid.0).1 =
          Spread-trans {t = mid.1} all.0 own in
        rw (e, unwind_with)
          (
            finish-Spread outcome s _ c e rest (λ d m.
                own.grows d
                  (All-In (λ x. unw mid.1 x ≡ true) d cs all.1 (In-reverse d (children s c) m))),
            λ k. rest.grows c (own_mark outcome s c),
          )
  ]

  -- Unwinding keeps the tree.
  pub unwind-Spread : (s : Shared) (c : ℕ) → IsTree s → Spread s (unwind outcome s c).1
  unfolding unwind
  unwind-Spread s c v = (unwind_with-Reaches s.next_context s c v.younger (omega arith)).0

  unwind-mark :
      (s : Shared) (c : ℕ) → c < s.next_context → IsTree s → unw (unwind outcome s c).1 c ≡ true
  unfolding unwind
  unwind-mark s c h v = (unwind_with-Reaches s.next_context s c v.younger (omega arith)).1 h

  pub unwind-Below :
      {s : Shared} {c d : ℕ}
      → IsTree s
      → c < s.next_context
      → Below s c d
      → unw (unwind outcome s c).1 d ≡ true
  unwind-Below {s} {c} v h itself = unwind-mark s c h v
  unwind-Below {s} {c} v h (under {x} {d} p m) = elim (Bool-cases (unw s x)) [
    | inl e ↦ absurd (subst (In d) (v.marked x e) m)
    | inr e ↦ (unwind-Spread s c v).falls x d e (unwind-Below v h p) m
  ]
