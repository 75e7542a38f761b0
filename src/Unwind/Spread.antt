-- ===== src/Unwind/Spread.antt =====
-- What a part of an unwinding does to the tree of scopes.
use stc_go.Base.{
  ℕ, ◌<◌, ◌≡◌, ◌≢◌, ◌⊎◌, refl, ◌∙◌, ap, sym, Option, some, List, [], ◌∷◌, inl, inr, All, In,
  All-drop_first, arith, ◌==◌, if◌then◌else◌, true, false, or_else, Bool-cases, subst, drop_first,
  ite, ℕ_discrete, Bool,
}
use stc_go.Key.{Error}
use stc_go.Store.{
  Shared, ProvKey, ProvideEntry, Inverse, unprovide, unisolate, unintercept, unlisten, user,
}
use stc_go.Services.{put_entries, remove_provide}
use stc_go.Services.Entries.{contexts-remove_provide}
use stc_go.Scope.{detach}
use stc_go.Unwind.{run_inverse, run_inverses, begin_unwind}
use stc_go.Unwind.Spared.{unw}

abbrev pub children : Shared → ℕ → List ℕ
children s x = (s.contexts x).children

abbrev pub parent_of : Shared → ℕ → Option ℕ
parent_of s x = (s.contexts x).parent

-- Children are younger than their parents, a scope that is being unwound has none, and the fibers'
-- homes were made.
pub record IsTree (s : Shared) : Type 0 where
  pub younger : (x : ℕ) → All (λ d. (x < d) × (d < s.next_context)) (children s x)
  pub marked : (x : ℕ) → unw s x ≡ true → children s x ≡ []
  pub homes : (g : ℕ) → (s.fibers g).home < s.next_context
  pub older : (x p : ℕ) → parent_of s x ≡ some p → p < x

-- Part of an unwinding: marks stay, children only leave, and go together with their parent or were
-- marked themselves.
pub record Spread (s t : Shared) : Type 1 where
  pub next : t.next_context ≡ s.next_context
  pub fibers : t.fibers ≡ s.fibers
  pub parents : (x : ℕ) → parent_of t x ≡ parent_of s x
  pub grows : (x : ℕ) → unw s x ≡ true → unw t x ≡ true
  pub shed : (P : ℕ → Type 0) (x : ℕ) → All P (children s x) → All P (children t x)
  pub kept :
      (x d : ℕ) → unw t x ≡ false → In d (children s x) → In d (children t x) ⊎ (unw t d ≡ true)
  pub falls : (x d : ℕ) → unw s x ≡ false → unw t x ≡ true → In d (children s x) → unw t d ≡ true
  pub bare :
      ((x : ℕ) → unw s x ≡ true → children s x ≡ []) → (x : ℕ) → unw t x ≡ true → children t x ≡ []

pub clash : (b : Bool) → b ≡ true → b ≡ false → ⊥
clash b p q = cc

pub Spread-trans : {s t u : Shared} → Spread s t → Spread t u → Spread s u
Spread-trans {s} {t} {u} a b = record {
  next = b.next ∙ a.next;
  fibers = b.fibers ∙ a.fibers;
  parents = λ x. b.parents x ∙ a.parents x;
  grows = λ x h. b.grows x (a.grows x h);
  shed = λ P x h. b.shed P x (a.shed P x h);
  kept = λ x d live m. elim (Bool-cases (unw t x)) [
    | inl e ↦ absurd (clash _ (b.grows x e) live)
    | inr e ↦ elim (a.kept x d e m) [ inl m' ↦ b.kept x d live m' | inr k ↦ inr (b.grows d k) ]
  ];
  falls = λ x d live dead m. elim (Bool-cases (unw t x)) [
    | inl e ↦ b.grows d (a.falls x d live e m)
    | inr e ↦ elim (a.kept x d e m) [ inl m' ↦ b.falls x d e dead m' | inr k ↦ b.grows d k ]
  ];
  bare = λ h. b.bare (a.bare h);
}

-- A step that leaves the marks and the lists of children.
pub Spread-same :
    (s t : Shared)
    → t.next_context ≡ s.next_context
    → t.fibers ≡ s.fibers
    → ((x : ℕ) → (unw t x ≡ unw s x) × (children t x ≡ children s x))
    → ((x : ℕ) → parent_of t x ≡ parent_of s x)
    → Spread s t
Spread-same s t n f e p = record {
  next = n;
  fibers = f;
  parents = p;
  grows = λ x h. (e x).0 ∙ h;
  shed = λ P x h. rw (e x).1 h;
  kept = λ x d live m. inl (rw (e x).1 m);
  falls = λ x d live dead m. absurd (clash _ (sym (e x).0 ∙ dead) live);
  bare = λ h x dead. (e x).1 ∙ h x (sym (e x).0 ∙ dead);
}

pub Spread-IsTree : (s t : Shared) → Spread s t → IsTree s → IsTree t
Spread-IsTree s t w v = record {
  younger = λ x. rw w.next (w.shed (λ d. (x < d) × (d < s.next_context)) x (v.younger x));
  marked = w.bare v.marked;
  homes = λ g. rw (w.next, w.fibers) (v.homes g);
  older = λ x p e. v.older x p (sym (w.parents x) ∙ e);
}

In-drop_first :
    (c d : ℕ) (xs : List ℕ) → In d xs → In d (drop_first (λ x. ℕ_discrete x c) xs) ⊎ (d ≡ c)
unfolding drop_first
In-drop_first c d [] m = absurd m
In-drop_first c d (x ∷ xs) (inl e) =
    elim (ℕ_discrete x c)
      as (λ t. In d (ite t xs (x ∷ drop_first (λ y. ℕ_discrete y c) xs)) ⊎ (d ≡ c)) [
        | yes p ↦ inr (e ∙ p)
        | no p ↦ inl (inl e)
      ]
In-drop_first c d (x ∷ xs) (inr m) =
    elim (ℕ_discrete x c)
      as (λ t. In d (ite t xs (x ∷ drop_first (λ y. ℕ_discrete y c) xs)) ⊎ (d ≡ c)) [
        | yes p ↦ inl m
        | no p ↦ elim (In-drop_first c d xs m) [ inl k ↦ inl (inr k) | inr k ↦ inr k ]
      ]

outside-put_entries :
    (pk : ProvKey) (es : List ProvideEntry) (s : Shared)
    → ((put_entries pk es s).next_context ≡ s.next_context)
      × ((put_entries pk es s).fibers ≡ s.fibers)
unfolding put_entries
outside-put_entries pk [] s = (refl, refl)
outside-put_entries pk (e ∷ es) s = (refl, refl)

outside-remove_provide :
    (s : Shared) (pk : ProvKey) (e : ProvideEntry)
    → ((remove_provide s pk e).next_context ≡ s.next_context)
      × ((remove_provide s pk e).fibers ≡ s.fibers)
unfolding remove_provide
outside-remove_provide s pk e = ground (arith, outside-put_entries pk _ s)

module _ (outcome : ℕ → Option Error) where
  run_inverse-tree :
      (s : Shared) (i : Inverse) (x : ℕ)
      → (unw (run_inverse outcome s i).1 x ≡ unw s x)
        × (children (run_inverse outcome s i).1 x ≡ children s x)
  unfolding run_inverse
  run_inverse-tree s (unprovide pk e) x = ground (arith, contexts-remove_provide s pk e)
  run_inverse-tree s (unisolate c k) x = ground arith
  run_inverse-tree s (unintercept c k id) x = ground arith
  run_inverse-tree s (unlisten n id) x = (refl, refl)
  run_inverse-tree s (user n) x = (refl, refl)

  run_inverse-parents :
      (s : Shared) (i : Inverse) (x : ℕ) → parent_of (run_inverse outcome s i).1 x ≡ parent_of s x
  unfolding run_inverse
  run_inverse-parents s (unprovide pk e) x = ground (arith, contexts-remove_provide s pk e)
  run_inverse-parents s (unisolate c k) x = ground arith
  run_inverse-parents s (unintercept c k id) x = ground arith
  run_inverse-parents s (unlisten n id) x = refl
  run_inverse-parents s (user n) x = refl

  run_inverse-outside :
      (s : Shared) (i : Inverse)
      → ((run_inverse outcome s i).1.next_context ≡ s.next_context)
        × ((run_inverse outcome s i).1.fibers ≡ s.fibers)
  unfolding run_inverse
  run_inverse-outside s (unprovide pk e) = outside-remove_provide s pk e
  run_inverse-outside s (unisolate c k) = (refl, refl)
  run_inverse-outside s (unintercept c k id) = (refl, refl)
  run_inverse-outside s (unlisten n id) = (refl, refl)
  run_inverse-outside s (user n) = (refl, refl)

  pub run_inverse-Spread : (s : Shared) (i : Inverse) → Spread s (run_inverse outcome s i).1
  run_inverse-Spread s i =
      let o = run_inverse-outside s i in
      Spread-same s _ o.0 o.1 (run_inverse-tree s i) (run_inverse-parents s i)

  pub run_inverses-Spread :
      (s : Shared) (is : List Inverse) (first : Option Error)
      → Spread s (run_inverses outcome s is first).1
  unfolding run_inverses
  run_inverses-Spread s [] first = Spread-same s s refl refl (λ x. (refl, refl)) (λ x. refl)
  run_inverses-Spread s (i ∷ is) first =
      let (e, s') = run_inverse outcome s i in
      Spread-trans {t = s'} (run_inverse-Spread s i) (run_inverses-Spread s' is (or_else first e))

  -- The scope is marked and empty, and leaves its parent's list.
  pub begin-tree :
      (s : Shared) (c x : ℕ)
      → (unw (begin_unwind outcome s c) x ≡ (if c == x then true else unw s x))
        × (children (begin_unwind outcome s c) c ≡ [])
        × (c ≢ x
            → (children (begin_unwind outcome s c) x ≡ children s x)
              ⊎ (children (begin_unwind outcome s c) x
                  ≡ drop_first (λ y. ℕ_discrete y c) (children s x)))
        × ((begin_unwind outcome s c).next_context ≡ s.next_context)
        × ((begin_unwind outcome s c).fibers ≡ s.fibers)
        × (parent_of (begin_unwind outcome s c) x ≡ parent_of s x)
  unfolding begin_unwind detach
  begin-tree s c x =
      (ground arith, ground arith, λ n. ground arith, ground arith, ground arith, ground arith)

  pub begin-shed :
      (s : Shared) (c : ℕ) (P : ℕ → Type 0) (x : ℕ)
      → All P (children s x)
      → All P (children (begin_unwind outcome s c) x)
  begin-shed s c P x h = elim (Bool-cases (c == x)) [
    | inl e ↦
        let c≡x : c ≡ x = ground arith in
        subst (λ y. All P (children (begin_unwind outcome s c) y)) c≡x (rw (begin-tree s c c).1 tt)
    | inr e ↦ elim ((begin-tree s c x).2 (λ k. ground arith)) [
      | inl k ↦ rw k h
      | inr k ↦ rw k (All-drop_first P (λ y. ℕ_discrete y c) (children s x) h)
    ]
  ]

  pub own_mark : (s : Shared) (c : ℕ) → unw (begin_unwind outcome s c) c ≡ true
  own_mark s c = ground (arith, begin-tree s c c)

  begin_bare :
      (s : Shared) (c : ℕ)
      → ((x : ℕ) → unw s x ≡ true → children s x ≡ [])
      → (x : ℕ) → unw (begin_unwind outcome s c) x ≡ true
      → children (begin_unwind outcome s c) x ≡ []
  unfolding drop_first
  begin_bare s c h x dead = elim (Bool-cases (c == x)) [
    | inl e ↦
        let c≡x : c ≡ x = ground arith in
        subst (λ y. children (begin_unwind outcome s c) y ≡ []) c≡x (begin-tree s c c).1
    | inr e ↦
        let none_left = h x (ground (arith, begin-tree s c x)) in
        elim ((begin-tree s c x).2 (λ k. ground arith)) [
          | inl k ↦ k ∙ none_left
          | inr k ↦ k ∙ ap (drop_first (λ y. ℕ_discrete y c)) none_left
        ]
  ]

  -- The scope's own part, around the unwinding of its subtrees.
  module _ (s u : Shared) (c : ℕ) (live : unw s c ≡ false)
      (rest : Spread (begin_unwind outcome s c) u)
      (gone : (d : ℕ) → In d (children s c) → unw u d ≡ true) where
    left_child :
        (x d : ℕ)
        → c ≢ x
        → In d (children s x)
        → In d (children (begin_unwind outcome s c) x) ⊎ (unw u d ≡ true)
    left_child x d n m = elim ((begin-tree s c x).2 n) [
      | inl e ↦ inl (rw e m)
      | inr e ↦ elim (In-drop_first c d (children s x) m) [
        | inl k ↦ inl (rw e k)
        | inr k ↦ inr (rest.grows d (rw k (own_mark s c)))
      ]
    ]

    pub finish-Spread : Spread s u
    finish-Spread = record {
      next = rest.next ∙ (begin-tree s c c).3;
      fibers = rest.fibers ∙ (begin-tree s c c).4;
      parents = λ x. rest.parents x ∙ (begin-tree s c x).5;
      grows = λ x h. rest.grows x (ground (arith, begin-tree s c x));
      shed = λ P x h. rest.shed P x (begin-shed s c P x h);
      kept = λ x d alive m. elim (Bool-cases (c == x)) [
        | inl e ↦
            let c≡x : c ≡ x = ground arith in
            absurd (clash _ (subst (λ y. unw u y ≡ true) c≡x (rest.grows c (own_mark s c))) alive)
        | inr e ↦ elim (left_child x d (λ k. ground arith) m) [
          | inl k ↦ rest.kept x d alive k
          | inr k ↦ inr k
        ]
      ];
      falls = λ x d alive dead m. elim (Bool-cases (c == x)) [
        | inl e ↦ let x≡c : x ≡ c = ground arith in gone d (subst (λ y. In d (children s y)) x≡c m)
        | inr e ↦ elim (left_child x d (λ k. ground arith) m) [
          | inl k ↦ rest.falls x d (ground (arith, begin-tree s c x)) dead k
          | inr k ↦ k
        ]
      ];
      bare = λ h. rest.bare (begin_bare s c h);
    }
