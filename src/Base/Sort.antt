-- ===== src/Base/Sort.antt =====
-- `sort.Slice` by a number, and sets of numbers kept as lists.
use Prim.Native.Nat.{ℕ, ◌+◌, ◌≤◌}
use mathlib.Core.Path.{◌≡◌, subst}
use native.Mathlib.Omega.{arith}
use mathlib.Core.Bool.{Bool, true, false}
use mathlib.Core.List.{List, [], ◌∷◌}
use stc_go.Base.Tests.{leb, ◌==◌, if◌then◌else◌}
use stc_go.Base.Lists.{All, count_if}
use native.Mathlib.Decide.{ℕ_discrete}

unfoldable pub insert_sorted : ℕ → List ℕ → List ℕ
insert_sorted a [] = a ∷ []
insert_sorted a (x ∷ xs) = if leb a x then a ∷ x ∷ xs else x ∷ insert_sorted a xs

unfoldable pub sort : List ℕ → List ℕ
unfolding insert_sorted
sort [] = []
sort (x ∷ xs) = insert_sorted x (sort xs)

unfoldable pub contains : ℕ → List ℕ → Bool
contains a [] = false
contains a (x ∷ xs) = if x == a then true else contains a xs

unfoldable pub add_key : ℕ → List ℕ → List ℕ
unfolding contains
add_key a xs = if contains a xs then xs else a ∷ xs

unfoldable pub delete_key : ℕ → List ℕ → List ℕ
delete_key a [] = []
delete_key a (x ∷ xs) = let rest = delete_key a xs in if x == a then rest else x ∷ rest

pub contains-add_key :
    (a b : ℕ) (xs : List ℕ) → contains b (add_key a xs) ≡ (if a == b then true else contains b xs)
unfolding add_key contains
contains-add_key a b xs = ground arith

pub contains-delete_key :
    (a b : ℕ) (xs : List ℕ)
    → contains b (delete_key a xs) ≡ (if a == b then false else contains b xs)
unfolding delete_key contains
contains-delete_key a b [] = ground arith
contains-delete_key a b (x ∷ xs) = ground (arith, contains-delete_key a b xs)

-- A test that fails at one number more counts one less, where the number occurs.
pub count_if_less :
    (f : ℕ) (p q : ℕ → Bool) (xs : List ℕ)
    → p f ≡ true
    → ((g : ℕ) → q g ≡ (if f == g then false else p g))
    → count_if q xs + (if contains f xs then 1 else 0) ≤ count_if p xs
unfolding contains
count_if_less f p q [] h e = omega arith
count_if_less f p q (x ∷ xs) h e = ground (arith, e x, count_if_less f p q xs h e)

pub count_if-delete_key :
    (f : ℕ) (p : ℕ → Bool) (xs : List ℕ) → count_if p (delete_key f xs) ≤ count_if p xs
unfolding delete_key
count_if-delete_key f p [] = omega arith
count_if-delete_key f p (x ∷ xs) = ground (arith, count_if-delete_key f p xs)

All-insert_sorted {κ} :
    (P : ℕ → Type κ) (a : ℕ) (xs : List ℕ) → P a → All P xs → All P (insert_sorted a xs)
unfolding insert_sorted
All-insert_sorted P a [] h k = (h, tt)
All-insert_sorted P a (x ∷ xs) h k = ground (arith, All-insert_sorted P a xs h k.1)

pub All-sort {κ} : (P : ℕ → Type κ) (xs : List ℕ) → All P xs → All P (sort xs)
unfolding sort
All-sort P [] k = tt
All-sort P (x ∷ xs) k = All-insert_sorted P x (sort xs) k.0 (All-sort P xs k.1)

All-of_insert_sorted {κ} :
    (P : ℕ → Type κ) (a : ℕ) (xs : List ℕ) → All P (insert_sorted a xs) → P a × All P xs
unfolding insert_sorted
All-of_insert_sorted P a [] k = (k.0, tt)
All-of_insert_sorted P a (x ∷ xs) k = ground (arith, All-of_insert_sorted P a xs)

pub All-of_sort {κ} : (P : ℕ → Type κ) (xs : List ℕ) → All P (sort xs) → All P xs
unfolding sort
All-of_sort P [] k = tt
All-of_sort P (x ∷ xs) k =
    let (h, rest) = All-of_insert_sorted P x (sort xs) k in (h, All-of_sort P xs rest)

pub All-contains :
    (xs ys : List ℕ)
    → ((a : ℕ) → contains a ys ≡ true → contains a xs ≡ true)
    → All (λ a. contains a xs ≡ true) ys
unfolding contains
All-contains xs [] h = tt
All-contains xs (y ∷ ys) h = (h y (ground arith), All-contains xs ys (λ a e. h a (ground arith)))

pub All-at {κ} : (P : ℕ → Type κ) (xs : List ℕ) (a : ℕ) → All P xs → contains a xs ≡ true → P a
unfolding contains
All-at P [] a k e = cc
All-at P (x ∷ xs) a k e = elim (ℕ_discrete x a) [
  | yes p ↦ subst P p k.0
  | no p ↦ All-at P xs a k.1 (ground arith)
]

pub All-from {κ} :
    (P : ℕ → Type κ) (xs : List ℕ) → ((a : ℕ) → contains a xs ≡ true → P a) → All P xs
unfolding contains
All-from P [] h = tt
All-from P (x ∷ xs) h = (h x (ground arith), All-from P xs (λ a e. h a (ground arith)))

-- Each element is at most every later one.
abbrev pub IsSorted : List ℕ → Type 0
IsSorted [] = Unit {0}
IsSorted (x ∷ xs) = All (λ y. x ≤ y) xs × IsSorted xs

at_most : (a x : ℕ) (xs : List ℕ) → a ≤ x → All (λ y. x ≤ y) xs → All (λ y. a ≤ y) xs
at_most a x [] h k = tt
at_most a x (y ∷ ys) h k = (omega (arith, k.0), at_most a x ys h k.1)

insert_sorted-IsSorted : (a : ℕ) (xs : List ℕ) → IsSorted xs → IsSorted (insert_sorted a xs)
unfolding insert_sorted
insert_sorted-IsSorted a [] h = (tt, tt)
insert_sorted-IsSorted a (x ∷ xs) h =
    ground (arith, at_most a x xs, insert_sorted-IsSorted a xs, All-insert_sorted (λ y. x ≤ y) a xs)

pub sort-IsSorted : (xs : List ℕ) → IsSorted (sort xs)
unfolding sort
sort-IsSorted [] = tt
sort-IsSorted (x ∷ xs) = insert_sorted-IsSorted x (sort xs) (sort-IsSorted xs)

contains-insert_sorted :
    (b a : ℕ) (xs : List ℕ)
    → contains b (insert_sorted a xs) ≡ (if a == b then true else contains b xs)
unfolding insert_sorted contains
contains-insert_sorted b a [] = ground arith
contains-insert_sorted b a (x ∷ xs) = ground (arith, contains-insert_sorted b a xs)

pub contains-sort : (b : ℕ) (xs : List ℕ) → contains b (sort xs) ≡ contains b xs
unfolding sort contains
contains-sort b [] = ground arith
contains-sort b (x ∷ xs) = ground (arith, contains-insert_sorted b x (sort xs), contains-sort b xs)
