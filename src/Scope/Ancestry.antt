-- ===== src/Scope/Ancestry.antt =====
-- The walk up the tree: where parents are older than their children, it comes to a root.
use stc_go.Base.{
  ℕ, zero, suc, ◌<◌, ◌≡◌, refl, ap, Option-cases, none, some, List, ◌∷◌, last?, inl, inr, arith,
}
use stc_go.Store.{Context}
use stc_go.Scope.{chain}

-- The last scope of the list has no parent.
abbrev pub IsRooted : (ℕ → Context) → List ℕ → Type 0
IsRooted h xs = (root : ℕ) × (last? xs ≡ some root) × ((h root).parent ≡ none)

module _ (h : ℕ → Context) (older : (x p : ℕ) → (h x).parent ≡ some p → p < x) where
  -- More fuel than the number of the scope changes nothing.
  pub chain-enough : (m n c : ℕ) → c < m → c < n → chain m h c ≡ chain n h c
  unfolding chain
  chain-enough zero n c k l = elim k [ ]
  chain-enough (suc m) zero c k l = elim l [ ]
  chain-enough (suc m) (suc n) c k l = elim (Option-cases (h c).parent) [
    | inl e ↦ rw e refl
    | inr (p, e) ↦
        let lt = older c p e in
        rw e (ap (◌∷◌ c) (chain-enough m n p (omega (arith, k, lt)) (omega (arith, l, lt))))
  ]

  IsRooted-cons :
      (c : ℕ) (m p : ℕ) → IsRooted h (chain (suc m) h p) → IsRooted h (c ∷ chain (suc m) h p)
  unfolding chain last?
  IsRooted-cons c m p (root, e, k) = (root, e, k)

  pub chain-IsRooted : (m c : ℕ) → c < m → IsRooted h (chain m h c)
  unfolding chain last?
  chain-IsRooted zero c k = elim k [ ]
  chain-IsRooted (suc zero) c k = elim (Option-cases (h c).parent) [
    | inl e ↦ rw e (c, refl, e)
    | inr (p, e) ↦ absurd (omega (arith, k, older c p e))
  ]
  chain-IsRooted (suc (suc m)) c k = elim (Option-cases (h c).parent) [
    | inl e ↦ rw e (c, refl, e)
    | inr (p, e) ↦
        rw e (IsRooted-cons c m p (chain-IsRooted (suc m) p (omega (arith, k, older c p e))))
  ]
