-- ===== src/Base/Lists.antt =====
-- Lists measured by native numbers, and the loops over lists that the source writes.
use Prim.Native.Nat.{ℕ, suc, ◌+◌, ◌≤◌}
use mathlib.Core.Path.{◌≡◌, refl, ap}
use mathlib.Core.Logic.{ite, ◌⊎◌, inl, inr}
use mathlib.Core.List.{List, [], ◌∷◌, ◌++◌, reverse, reverse-cons}
use mathlib.Core.Bool.{Bool}
use stc_go.Base.Tests.{if◌then◌else◌}
use mathlib.Core.Option.{Option, none, some}
use native.Mathlib.Omega.{arith}

module _ {ℓ} {A : Type ℓ} where
  abbrev pub length : List A → ℕ
  length [] = 0
  length (x ∷ xs) = suc (length xs)

  pub length-append : (xs ys : List A) → length (xs ++ ys) ≡ length xs + length ys
  length-append [] ys = omega arith
  length-append (x ∷ xs) ys = omega (arith, length-append xs ys)

  -- Every element has the property.
  abbrev pub All {κ} : (A → Type κ) → List A → Type κ
  All P [] = Unit
  All P (x ∷ xs) = P x × All P xs

  -- `l[len(l)-1]`, where the list is not empty.
  unfoldable pub last? : List A → Option A
  last? [] = none
  last? (x ∷ []) = some x
  last? (x ∷ y ∷ xs) = last? (y ∷ xs)

  pub last?-append : (xs : List A) (y : A) → last? (xs ++ y ∷ []) ≡ some y
  unfolding last?
  last?-append [] y = refl
  last?-append (x ∷ []) y = refl
  last?-append (x ∷ z ∷ xs) y = last?-append (z ∷ xs) y

  pub append_nil : (xs : List A) → xs ++ [] ≡ xs
  append_nil [] = refl
  append_nil (x ∷ xs) = ap (◌∷◌ x) (append_nil xs)

module _ {ℓ κ} {A : Type ℓ} {P : A → Type κ} (d : (a : A) → Dec (P a)) where
  -- The loop that cuts the first match out: `l = append(l[:i], l[i+1:]...); break`.
  unfoldable pub drop_first : List A → List A
  drop_first [] = []
  drop_first (x ∷ xs) = ite (d x) xs (x ∷ drop_first xs)

  pub length-drop_first-le : (xs : List A) → length (drop_first xs) ≤ length xs
  unfolding drop_first
  length-drop_first-le [] = omega arith
  length-drop_first-le (x ∷ xs) = ground (arith, length-drop_first-le xs)

module _ {ℓ κ} {A : Type ℓ} (P : A → Type κ) where
  pub All-append : (xs ys : List A) → All P xs → All P ys → All P (xs ++ ys)
  All-append [] ys p q = q
  All-append (x ∷ xs) ys p q = (p.0, All-append xs ys p.1 q)

  pub All-every : ((a : A) → P a) → (xs : List A) → All P xs
  All-every f [] = tt
  All-every f (x ∷ xs) = (f x, All-every f xs)

  pub All-reverse : (xs : List A) → All P xs → All P (reverse xs)
  All-reverse [] p = tt
  All-reverse (x ∷ xs) p =
      rw (reverse-cons x xs) (All-append (reverse xs) (x ∷ []) (All-reverse xs p.1) (p.0, tt))

  pub All-drop_first {μ} :
      {Q : A → Type μ} (d : (a : A) → Dec (Q a)) (xs : List A) → All P xs → All P (drop_first d xs)
  unfolding drop_first
  All-drop_first d [] p = tt
  All-drop_first d (x ∷ xs) p = ground (arith, All-drop_first d xs p.1)

module _ {ℓ κ μ} {A : Type ℓ} (P : A → Type κ) (Q : A → Type μ) where
  pub All-imp : ((a : A) → P a → Q a) → (xs : List A) → All P xs → All Q xs
  All-imp f [] p = tt
  All-imp f (x ∷ xs) p = (f x p.0, All-imp f xs p.1)

  pub All-zip : (xs : List A) → All P xs → All Q xs → All (λ a. P a × Q a) xs
  All-zip [] p q = tt
  All-zip (x ∷ xs) p q = ((p.0, q.0), All-zip xs p.1 q.1)

module _ {A : Type 0} where
  -- Membership, with the place where the element stands.
  abbrev pub In : A → List A → Type 0
  In a [] = ⊥
  In a (x ∷ xs) = (a ≡ x) ⊎ In a xs

  pub In-append_left : (a : A) (xs ys : List A) → In a xs → In a (xs ++ ys)
  In-append_left a [] ys m = absurd m
  In-append_left a (x ∷ xs) ys (inl e) = inl e
  In-append_left a (x ∷ xs) ys (inr m) = inr (In-append_left a xs ys m)

  pub In-append_right : (a : A) (xs ys : List A) → In a ys → In a (xs ++ ys)
  In-append_right a [] ys m = m
  In-append_right a (x ∷ xs) ys m = inr (In-append_right a xs ys m)

  pub In-reverse : (a : A) (xs : List A) → In a xs → In a (reverse xs)
  In-reverse a [] m = absurd m
  In-reverse a (x ∷ xs) (inl e) =
      rw (reverse-cons x xs) (In-append_right a (reverse xs) (x ∷ []) (inl e))
  In-reverse a (x ∷ xs) (inr m) =
      rw (reverse-cons x xs) (In-append_left a (reverse xs) (x ∷ []) (In-reverse a xs m))

module _ {ℓ} {A : Type ℓ} (p : A → Bool) where
  abbrev pub count_if : List A → ℕ
  count_if [] = 0
  count_if (x ∷ xs) = if p x then suc (count_if xs) else count_if xs

  pub count_if-append : (xs ys : List A) → count_if (xs ++ ys) ≡ count_if xs + count_if ys
  count_if-append [] ys = omega arith
  count_if-append (x ∷ xs) ys = ground (arith, count_if-append xs ys)

module _ {ℓ} {A : Type ℓ} (p : A → Bool) where
  -- The first element that passes the test, and the list without it.
  unfoldable pub take_out : List A → Option (A × List A)
  take_out [] = none
  take_out (x ∷ xs) =
      if p x
      then some (x, xs)
      else elim (take_out xs) [ none ↦ none | some (y, r) ↦ some (y, x ∷ r) ]
