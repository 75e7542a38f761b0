-- ===== src/Unwind/Spared.antt =====
-- The entries of the scopes that were spared between two states, and the scopes whose entries can all
-- be withdrawn.
use stc_go.Base.{
  ℕ, ◌≡◌, refl, sym, ◌∙◌, ap, List, [], ◌∷◌, inl, inr, All, In, arith, ◌==◌, if◌then◌else◌, Bool,
  true, false, Bool-cases,
}
use stc_go.Store.{ProvKey, ProvideEntry, Shared, Inverse, unprovide, entries}
use stc_go.Unwind.Recovery.{others, IsRising, IsRising-weaken, IsOf}

abbrev pub unw : Shared → ℕ → Bool
unw s o = (s.contexts o).unwinding

-- The entries whose owner passes the test, in their order.
abbrev pub survivors : (ℕ → Bool) → List ProvideEntry → List ProvideEntry
survivors keep [] = []
survivors keep (e ∷ es) = if keep e.owner then e ∷ survivors keep es else survivors keep es

-- A scope that was not unwound between the two states.
abbrev pub spared : Shared → Shared → ℕ → Bool
spared s t o = if unw t o then unw s o else true

-- Every entry of a live scope has its closure in the scope, closures are the scope's own, and
-- entries stand in the order of their numbers.
pub record IsRecoverable (s : Shared) : Type 0 where
  pub covered :
      (pk : ProvKey)
      → All
          (λ e. unw s e.owner ≡ false → In (unprovide pk e) (s.contexts e.owner).inverses)
          (entries s.provides pk)
  pub own : (o : ℕ) → All (IsOf o) (s.contexts o).inverses
  pub rising : (pk : ProvKey) → IsRising 0 (entries s.provides pk)

-- The scopes unwound between the two states lost their entries, and no other scope lost any.
pub record Unwound (s t : Shared) : Type 0 where
  pub exact :
      (pk : ProvKey) → entries t.provides pk ≡ survivors (spared s t) (entries s.provides pk)
  pub grows : (o : ℕ) → unw s o ≡ true → unw t o ≡ true
  pub kept : (o : ℕ) → unw t o ≡ false → (t.contexts o).inverses ≡ (s.contexts o).inverses
  pub own : (o : ℕ) → All (IsOf o) (s.contexts o).inverses → All (IsOf o) (t.contexts o).inverses

survivors_all :
    (k : ℕ → Bool) (es : List ProvideEntry) → ((o : ℕ) → k o ≡ true) → survivors k es ≡ es
survivors_all k [] h = refl
survivors_all k (x ∷ xs) h = ground (arith, h x.owner, survivors_all k xs h)

survivors-survivors :
    (j k l : ℕ → Bool) (es : List ProvideEntry)
    → ((o : ℕ) → (if j o then k o else false) ≡ l o)
    → survivors k (survivors j es) ≡ survivors l es
survivors-survivors j k l [] h = refl
survivors-survivors j k l (x ∷ xs) h = ground (arith, h x.owner, survivors-survivors j k l xs h)

pub others-survivors :
    (c : ℕ) (k l : ℕ → Bool) (es : List ProvideEntry)
    → ((o : ℕ) → (if o == c then false else k o) ≡ l o)
    → others c (survivors k es) ≡ survivors l es
others-survivors c k l [] h = refl
others-survivors c k l (x ∷ xs) h = ground (arith, h x.owner, others-survivors c k l xs h)

pub All-survivors {κ} :
    (P : ProvideEntry → Type κ) (k : ℕ → Bool) (es : List ProvideEntry)
    → All P es
    → All P (survivors k es)
All-survivors P k [] h = tt
All-survivors P k (x ∷ xs) h = ground (arith, All-survivors P k xs h.1)

pub IsRising-survivors :
    (k : ℕ → Bool) (n : ℕ) (es : List ProvideEntry) → IsRising n es → IsRising n (survivors k es)
IsRising-survivors k n [] h = tt
IsRising-survivors k n (x ∷ xs) h =
    ground (arith, IsRising-survivors k x.seq xs h.1, IsRising-weaken n x.seq (survivors k xs))

pub Unwound-refl : (s : Shared) → Unwound s s
Unwound-refl s = record {
  exact = λ pk. sym (survivors_all (spared s s) (entries s.provides pk) (λ o. ground arith));
  grows = λ o h. h;
  kept = λ o h. refl;
  own = λ o h. h;
}

pub Unwound-trans : (s t u : Shared) → Unwound s t → Unwound t u → Unwound s u
Unwound-trans s t u a b = record {
  exact = λ pk.
      b.exact pk
      ∙ ap (survivors (spared t u)) (a.exact pk)
      ∙ survivors-survivors (spared s t) (spared t u) (spared s u) (entries s.provides pk)
          (λ o. ground (arith, a.grows o, b.grows o));
  grows = λ o h. b.grows o (a.grows o h);
  kept = λ o h. b.kept o h ∙ a.kept o (ground (arith, b.grows o));
  own = λ o h. b.own o (a.own o h);
}

covered_later :
    (s t : Shared) (pk : ProvKey) (es : List ProvideEntry)
    → Unwound s t
    → All (λ e. unw s e.owner ≡ false → In (unprovide pk e) (s.contexts e.owner).inverses) es
    → All (λ e. unw t e.owner ≡ false → In (unprovide pk e) (t.contexts e.owner).inverses) es
covered_later s t pk [] w h = tt
covered_later s t pk (x ∷ xs) w h = (
  λ live. rw (w.kept x.owner live) (h.0 (ground (arith, w.grows x.owner))),
  covered_later s t pk xs w h.1,
)

pub Unwound-IsRecoverable : (s t : Shared) → Unwound s t → IsRecoverable s → IsRecoverable t
Unwound-IsRecoverable s t w r = record {
  covered = λ pk.
      rw (w.exact pk) (All-survivors _ (spared s t) _ (covered_later s t pk _ w (r.covered pk)));
  own = λ o. w.own o (r.own o);
  rising = λ pk. rw (w.exact pk) (IsRising-survivors (spared s t) 0 _ (r.rising pk));
}

pub own-begin :
    (c o : ℕ) (is : List Inverse) → All (IsOf o) is → All (IsOf o) (if c == o then [] else is)
own-begin c o is h = elim (Bool-cases (c == o)) [ inl e ↦ rw e tt | inr e ↦ rw e h ]
