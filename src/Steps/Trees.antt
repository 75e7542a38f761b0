-- ===== src/Steps/Trees.antt =====
-- The operations that change the tree of scopes keep it one.
use stc_go.Base.{
  ℕ, suc, ◌+◌, ◌<◌, ◌≡◌, ◌⊎◌, refl, sym, ap, ◌∙◌, inl, inr, Bool-cases, false, some, List, [], ◌∷◌,
  ◌++◌, All, All-append, All-drop_first, drop_first, ℕ_discrete, arith, if◌then◌else◌, if_both,
  ◌==◌,
}
use stc_go.Key.{Any}
use stc_go.Store.{Shared, ProvKey, Component, is_inactive, send}
use stc_go.Scope.{child, detach}
use stc_go.Services.{add_provide}
use stc_go.Fiber.{load}
use stc_go.Orchestrator.{mount}
use stc_go.Unwind.Spared.{unw}
use stc_go.Unwind.Spread.{children, parent_of, IsTree}

weaken :
    (x n : ℕ) (ds : List ℕ) → All (λ d. (x < d) × (d < n)) ds → All (λ d. (x < d) × (d < suc n)) ds
weaken x n [] a = tt
weaken x n (d ∷ ds) a = ((a.0.0, omega (arith, a.0.1)), weaken x n ds a.1)

-- The list of children after Child.
abbrev grown : Shared → ℕ → ℕ → List ℕ
grown s c x =
    if s.next_context == x
    then []
    else if is_inactive s c
    then children s x
    else if c == x
    then children s x ++ s.next_context ∷ []
    else children s x

child-tree :
    (s : Shared) (c x : ℕ)
    → c < s.next_context
    → (children (child s c).1 x ≡ grown s c x)
      × (unw (child s c).1 x ≡ (if s.next_context == x then false else unw s x))
      × ((child s c).1.next_context ≡ suc s.next_context)
      × ((child s c).1.fibers ≡ s.fibers)
      × (parent_of (child s c).1 x ≡ (if s.next_context == x then some c else parent_of s x))
unfolding child is_inactive
child-tree s c x h = ground arith

grown-younger :
    (s : Shared) (c x : ℕ)
    → c < s.next_context
    → All (λ d. (x < d) × (d < s.next_context)) (children s x)
    → All (λ d. (x < d) × (d < suc s.next_context)) (grown s c x)
grown-younger s c x h a =
    let P = λ (ds : List ℕ). All (λ d. (x < d) × (d < suc s.next_context)) ds in
    let w = weaken x s.next_context (children s x) a in
    if_both P (s.next_context == x) tt (
      if_both P (is_inactive s c) w (elim (Bool-cases (c == x)) [
        | inl e ↦ rw e (
            All-append (λ d. (x < d) × (d < suc s.next_context)) (children s x) _ w
              ((ground arith, omega arith), tt))
        | inr e ↦ rw e w
      ]))

pub child-IsTree : (s : Shared) (c : ℕ) → c < s.next_context → IsTree s → IsTree (child s c).1
unfolding is_inactive
child-IsTree s c h v = record {
  younger = λ x.
      rw ((child-tree s c x h).0, (child-tree s c x h).2) (grown-younger s c x h (v.younger x));
  marked = λ x k. ground (arith, child-tree s c x h, v.marked x);
  homes = λ g. rw ((child-tree s c c h).3, (child-tree s c c h).2) (omega (arith, v.homes g));
  older = λ x p e. ground (arith, child-tree s c x h, e, v.older x p);
}

detach-tree :
    (s : Shared) (c x : ℕ)
    → ((children (detach s c) x ≡ children s x)
        ⊎ (children (detach s c) x ≡ drop_first (λ y. ℕ_discrete y c) (children s x)))
      × (unw (detach s c) x ≡ unw s x)
      × ((detach s c).next_context ≡ s.next_context)
      × ((detach s c).fibers ≡ s.fibers)
      × (parent_of (detach s c) x ≡ parent_of s x)
unfolding detach
detach-tree s c x = ground arith

detach-IsTree : (s : Shared) (c : ℕ) → IsTree s → IsTree (detach s c)
unfolding drop_first
detach-IsTree s c v = record {
  younger = λ x. rw (detach-tree s c x).2 (elim (detach-tree s c x).0 [
    | inl e ↦ rw e (v.younger x)
    | inr e ↦ rw e (
        All-drop_first (λ d. (x < d) × (d < s.next_context)) (λ y. ℕ_discrete y c) (children s x)
          (v.younger x))
  ]);
  marked = λ x k.
      let bare = v.marked x (sym (detach-tree s c x).1 ∙ k) in
      elim (detach-tree s c x).0 [
        | inl e ↦ e ∙ bare
        | inr e ↦ e ∙ ap (drop_first (λ y. ℕ_discrete y c)) bare
      ];
  homes = λ g. rw ((detach-tree s c c).2, (detach-tree s c c).3) (v.homes g);
  older = λ x p e. v.older x p (sym (detach-tree s c x).4 ∙ e);
}

-- The lists of children, the marks, the number of scopes and the homes are as before.
pub IsTree-same :
    (s t : Shared)
    → t.next_context ≡ s.next_context
    → ((x : ℕ) → (unw t x ≡ unw s x) × (children t x ≡ children s x))
    → ((x : ℕ) → parent_of t x ≡ parent_of s x)
    → ((g : ℕ) → (t.fibers g).home ≡ (s.fibers g).home)
    → IsTree s
    → IsTree t
IsTree-same s t n e o f v = record {
  younger = λ x. rw (n, (e x).1) (v.younger x);
  marked = λ x k. (e x).1 ∙ v.marked x (sym (e x).0 ∙ k);
  homes = λ g. rw (n, f g) (v.homes g);
  older = λ x p k. v.older x p (sym (o x) ∙ k);
}

pub mount-IsTree : (s : Shared) (f : ℕ) → IsTree s → IsTree (mount s f).1
unfolding mount
mount-IsTree s f v =
    let (c, s') = child s (s.fibers f).home in
    let w : IsTree s' = child-IsTree s (s.fibers f).home (v.homes f) v in
    IsTree-same (detach s' c) (mount s f).1 refl (λ x. (ground arith, ground arith))
      (λ x. ground arith) (λ g. ground arith) (detach-IsTree s' c w)

load-tree :
    (s : Shared) (c : ℕ) (comp : Component) (x : ℕ)
    → ((load s c comp).1.next_context ≡ s.next_context)
      × (children (load s c comp).1 x ≡ children s x)
      × (unw (load s c comp).1 x ≡ unw s x)
      × (((load s c comp).1.fibers x).home ≡ (if s.seq + 1 == x then c else (s.fibers x).home))
      × (parent_of (load s c comp).1 x ≡ parent_of s x)
unfolding load send is_inactive
load-tree s c comp x = ground arith

pub load-IsTree :
    (s : Shared) (c : ℕ) (comp : Component)
    → c < s.next_context
    → IsTree s
    → IsTree (load s c comp).1
load-IsTree s c comp h v = record {
  younger = λ x. let l = load-tree s c comp x in rw (l.0, l.1) (v.younger x);
  marked = λ x e. let l = load-tree s c comp x in l.1 ∙ v.marked x (sym l.2 ∙ e);
  homes = λ g.
      let l = load-tree s c comp g in
      rw (l.0, l.3) (if_both (λ o. o < s.next_context) (s.seq + 1 == g) h (v.homes g));
  older = λ x p e. v.older x p (sym (load-tree s c comp x).4 ∙ e);
}

pub add_provide-IsTree :
    (s : Shared) (c : ℕ) (pk : ProvKey) (v : Any) → IsTree s → IsTree (add_provide s c pk v).1
unfolding add_provide
add_provide-IsTree s c pk v =
    IsTree-same s _ (ground arith) (λ x. (ground arith, ground arith)) (λ x. ground arith)
      (λ g. ground arith)
