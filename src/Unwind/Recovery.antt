-- ===== src/Unwind/Recovery.antt =====
-- Recovery exactness: unwinding takes out exactly what the scope put in.
use stc_go.Base.{
  ℕ, ◌≤◌, ◌<◌, ◌≡◌, refl, sym, ◌∙◌, ap, Option, List, [], ◌∷◌, inl, inr, All, In, arith, ite,
  drop_first, ◌==◌, if◌then◌else◌, subst, or_else, ◌≢◌, Bool, true, false,
}
use stc_go.Base.Assoc.{Assoc}
use stc_go.Key.{Error}
use stc_go.Store.{
  ProvKey, ProvKey-discrete, ProvideEntry, same, Shared, Inverse, unprovide, ProvideIdent,
  unisolate, unintercept, unlisten, user, entries,
}
use stc_go.Services.{remove_provide}
use stc_go.Services.Entries.{without, entries-remove_provide}
use stc_go.Unwind.{run_inverse, run_inverses}

-- The entries that other scopes provide.
abbrev pub others : ℕ → List ProvideEntry → List ProvideEntry
others c [] = []
others c (e ∷ es) = if e.owner == c then others c es else e ∷ others c es

-- Later entries have greater numbers.
abbrev pub IsRising : ℕ → List ProvideEntry → Type 0
IsRising n [] = Unit {0}
IsRising n (e ∷ es) = (n < e.seq) × IsRising e.seq es

-- The closure withdraws an entry of the scope `c`, or is of another kind.
abbrev pub IsOf : ℕ → Inverse → Type 0
IsOf c (unprovide pk e) = e.owner ≡ c
IsOf c _ = Unit {0}

-- Each entry of the scope has its closure in the list.
abbrev pub Covered : ℕ → ProvKey → List Inverse → ProvideEntry → Type 0
Covered c pk is e = e.owner ≡ c → In (unprovide pk e) is

seq_of : Inverse → ℕ
seq_of (unprovide pk e) = e.seq
seq_of _ = 0

others-without :
    (c : ℕ) (e : ProvideEntry) (es : List ProvideEntry)
    → e.owner ≡ c
    → others c (without e es) ≡ others c es
unfolding drop_first
others-without c e [] h = refl
others-without c e (x ∷ xs) h = ground (arith, others-without c e xs h)

others_none :
    (c : ℕ) (es : List ProvideEntry) (pk : ProvKey) → All (Covered c pk []) es → others c es ≡ es
others_none c [] pk h = refl
others_none c (x ∷ xs) pk h = ground (arith, h.0, others_none c xs pk h.1)

pub IsRising-weaken : (m n : ℕ) (es : List ProvideEntry) → m ≤ n → IsRising n es → IsRising m es
IsRising-weaken m n [] h r = tt
IsRising-weaken m n (x ∷ xs) h r = (omega arith, r.1)

pub IsRising-without :
    (n : ℕ) (e : ProvideEntry) (es : List ProvideEntry) → IsRising n es → IsRising n (without e es)
unfolding drop_first
IsRising-without n e [] r = tt
IsRising-without n e (x ∷ xs) r =
    ground (arith, IsRising-without x.seq e xs r.1, IsRising-weaken n x.seq xs)

-- A closure for another entry does not cover this one.
uncovered :
    (pk qk : ProvKey) (x e : ProvideEntry) (is : List Inverse)
    → e.seq < x.seq
    → In (unprovide pk x) (unprovide qk e ∷ is)
    → In (unprovide pk x) is
unfolding seq_of
uncovered pk qk x e is lt (inl h) = absurd (omega (arith, ap seq_of h))
uncovered pk qk x e is lt (inr m) = m

-- What is left after the entry is taken out has other numbers.
past :
    (n : ℕ) (pk : ProvKey) (c : ℕ) (e : ProvideEntry) (is : List Inverse) (es : List ProvideEntry)
    → e.seq ≤ n
    → IsRising n es
    → All (Covered c pk (unprovide pk e ∷ is)) es
    → All (Covered c pk is) es
past n pk c e is [] le r h = tt
past n pk c e is (x ∷ xs) le r h = (
  λ own. uncovered pk pk x e is (omega arith) (h.0 own),
  past x.seq pk c e is xs (omega arith) r.1 h.1,
)

ident_of : ProvideEntry → Inverse → ProvideIdent
ident_of d (unprovide pk e) = e.ident
ident_of d _ = d.ident

key_of : ProvKey → Inverse → ProvKey
key_of d (unprovide pk e) = pk
key_of d _ = d

is_unprovide : Inverse → Bool
is_unprovide (unprovide pk e) = true
is_unprovide _ = false

drop_cover :
    (pk : ProvKey) (x : ProvideEntry) (i : Inverse) (is : List Inverse)
    → ¬ (unprovide pk x ≡ i)
    → In (unprovide pk x) (i ∷ is)
    → In (unprovide pk x) is
drop_cover pk x i is ne (inl h) = absurd (ne h)
drop_cover pk x i is ne (inr m) = m

Covered-same :
    (n : ℕ) (pk : ProvKey) (c : ℕ) (e : ProvideEntry) (is : List Inverse) (es : List ProvideEntry)
    → IsRising n es
    → All (Covered c pk (unprovide pk e ∷ is)) es
    → All (Covered c pk is) (without e es)
unfolding drop_first ident_of
Covered-same n pk c e is [] r h = tt
Covered-same n pk c e is (x ∷ xs) r h =
    elim (same x e) as (λ d. All (Covered c pk is) (ite d xs (x ∷ without e xs))) [
      | yes p ↦ past x.seq pk c e is xs (omega (arith, ap (λ (i : ProvideIdent). i.seq) p)) r.1 h.1
      | no p ↦ (
        λ own. drop_cover pk x (unprovide pk e) is (λ q. p (ap (ident_of e) q)) (h.0 own),
        Covered-same x.seq pk c e is xs r.1 h.1,
      )
    ]

Covered-ne :
    (pk : ProvKey) (c : ℕ) (i : Inverse) (is : List Inverse) (es : List ProvideEntry)
    → ((x : ProvideEntry) → ¬ (unprovide pk x ≡ i))
    → All (Covered c pk (i ∷ is)) es
    → All (Covered c pk is) es
Covered-ne pk c i is [] ne h = tt
Covered-ne pk c i is (x ∷ xs) ne h =
    (λ own. drop_cover pk x i is (ne x) (h.0 own), Covered-ne pk c i is xs ne h.1)

abbrev pub Provides : Type 0
Provides = Assoc ProvKey (List ProvideEntry)

true≢false : true ≢ false
true≢false e = cc

-- What a scope's closures must account for: each of its entries is covered, and numbers rise.
pub record Tracked (p : Provides) (c : ℕ) (is : List Inverse) : Type 0 where
  pub covered : (pk : ProvKey) → All (Covered c pk is) (entries p pk)
  pub rising : (pk : ProvKey) → IsRising 0 (entries p pk)

module _ (outcome : ℕ → Option Error) where
  -- A closure of another kind leaves every list of entries alone.
  provides-run_inverse :
      (s : Shared) (i : Inverse)
      → is_unprovide i ≡ false
      → (run_inverse outcome s i).1.provides ≡ s.provides
  unfolding run_inverse is_unprovide
  provides-run_inverse s (unprovide pk e) h = cc
  provides-run_inverse s (unisolate c k) h = refl
  provides-run_inverse s (unintercept c k id) h = refl
  provides-run_inverse s (unlisten n id) h = refl
  provides-run_inverse s (user n) h = refl

  Tracked-other :
      (s : Shared) (c : ℕ) (i : Inverse) (is : List Inverse)
      → is_unprovide i ≡ false
      → Tracked s.provides c (i ∷ is)
      → Tracked (run_inverse outcome s i).1.provides c is
  unfolding is_unprovide
  Tracked-other s c i is h t = rw (provides-run_inverse s i h) (record {
    covered =
        λ pk. Covered-ne pk c i is _ (λ x q. true≢false (ap is_unprovide q ∙ h)) (t.covered pk);
    rising = t.rising;
  })

  Tracked-unprovide :
      (s : Shared) (c : ℕ) (pk : ProvKey) (e : ProvideEntry) (is : List Inverse)
      → Tracked s.provides c (unprovide pk e ∷ is)
      → Tracked (run_inverse outcome s (unprovide pk e)).1.provides c is
  unfolding run_inverse key_of
  Tracked-unprovide s c pk e is t = record { covered = covers; rising = rises }
    where
      covers : (qk : ProvKey) → All (Covered c qk is) (entries (remove_provide s pk e).provides qk)
      covers qk =
          rw (entries-remove_provide s pk qk e)
            (elim (ProvKey-discrete pk qk)
              as (λ d.
                All (Covered c qk is)
                  (ite d (without e (entries s.provides pk)) (entries s.provides qk))) [
                    | yes p ↦
                        subst (λ k. All (Covered c k is) (without e (entries s.provides pk))) p
                          (Covered-same 0 pk c e is (entries s.provides pk) (t.rising pk)
                            (t.covered pk))
                    | no p ↦
                        Covered-ne qk c (unprovide pk e) is _ (λ x q. p (sym (ap (key_of pk) q)))
                          (t.covered qk)
                  ])

      rises : (qk : ProvKey) → IsRising 0 (entries (remove_provide s pk e).provides qk)
      rises qk =
          rw (entries-remove_provide s pk qk e)
            (elim (ProvKey-discrete pk qk)
              as (λ d.
                IsRising 0 (ite d (without e (entries s.provides pk)) (entries s.provides qk))) [
                  | yes p ↦ IsRising-without 0 e (entries s.provides pk) (t.rising pk)
                  | no p ↦ t.rising qk
                ])

  step-Tracked :
      (s : Shared) (c : ℕ) (i : Inverse) (is : List Inverse)
      → Tracked s.provides c (i ∷ is)
      → Tracked (run_inverse outcome s i).1.provides c is
  step-Tracked s c (unprovide pk e) is t = Tracked-unprovide s c pk e is t
  step-Tracked s c (unisolate x k) is t =
      Tracked-other s c (unisolate x k) is (unfold is_unprovide in refl) t
  step-Tracked s c (unintercept x k id) is t =
      Tracked-other s c (unintercept x k id) is (unfold is_unprovide in refl) t
  step-Tracked s c (unlisten n id) is t =
      Tracked-other s c (unlisten n id) is (unfold is_unprovide in refl) t
  step-Tracked s c (user n) is t = Tracked-other s c (user n) is (unfold is_unprovide in refl) t

  -- A closure of the scope's own leaves the others' entries in place and in order.
  step_others :
      (s : Shared) (c : ℕ) (i : Inverse) (pk : ProvKey)
      → IsOf c i
      → others c (entries (run_inverse outcome s i).1.provides pk)
        ≡ others c (entries s.provides pk)
  unfolding run_inverse
  step_others s c (unprovide qk e) pk own =
      rw (entries-remove_provide s qk pk e)
        (elim (ProvKey-discrete qk pk)
          as (λ d.
            others c (ite d (without e (entries s.provides qk)) (entries s.provides pk))
            ≡ others c (entries s.provides pk)) [
              | yes p ↦
                  others-without c e (entries s.provides qk) own
                  ∙ ap (λ k. others c (entries s.provides k)) p
              | no p ↦ refl
            ])
  step_others s c (unisolate x k) pk own = refl
  step_others s c (unintercept x k id) pk own = refl
  step_others s c (unlisten n id) pk own = refl
  step_others s c (user n) pk own = refl

  -- Running closures of one scope, where they account for each of its entries and numbers rise in
  -- each list of entries, leaves of every key exactly the entries of the other scopes, in their
  -- order.
  pub provides-run_inverses :
      (s : Shared) (c : ℕ) (is : List Inverse) (first : Option Error)
      → Tracked s.provides c is
      → All (IsOf c) is
      → (pk : ProvKey)
      → entries (run_inverses outcome s is first).1.provides pk ≡ others c (entries s.provides pk)
  unfolding run_inverses
  provides-run_inverses s c [] first t own pk = sym (others_none c _ pk (t.covered pk))
  provides-run_inverses s c (i ∷ is) first t own pk =
      let (e, s') = run_inverse outcome s i in
      provides-run_inverses s' c is (or_else first e) (step-Tracked s c i is t) own.1 pk
      ∙ step_others s c i pk own.0
