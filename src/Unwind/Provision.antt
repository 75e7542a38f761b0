-- ===== src/Unwind/Provision.antt =====
-- `Provide` registers what unwinding needs: after it, the new entry can be withdrawn like the others.
use stc_go.Base.{
  ℕ, ◌≤◌, ◌<◌, ◌≡◌, refl, sym, ◌∙◌, subst, true, false, List, [], ◌∷◌, ◌++◌, All, All-append, In,
  In-append_left, In-append_right, inl, inr, arith, ite, if◌then◌else◌, ◌==◌, Bool-cases, ==_iff,
}
use stc_go.Key.{Key, Any, Reflect}
use stc_go.Store.{ProvKey, ProvKey-discrete, ProvideEntry, Inverse, unprovide, Shared, entries}
use stc_go.Services.{prov_key, add_provide, provide}
use stc_go.Services.Visible.{provide-cases}
use stc_go.Services.Entries.{new_entry, entries-add_provide}
use stc_go.Unwind.Recovery.{IsRising, IsOf}
use stc_go.Unwind.Spared.{IsRecoverable, unw}

-- The numbers of the entries do not exceed the counter.
pub record IsDated (s : Shared) : Type 0 where
  pub dated : (pk : ProvKey) → All (λ e. e.seq ≤ s.seq) (entries s.provides pk)

IsRising-append :
    (n m : ℕ) (es : List ProvideEntry) (e : ProvideEntry)
    → n ≤ m
    → m < e.seq
    → All (λ x. x.seq ≤ m) es
    → IsRising n es
    → IsRising n (es ++ e ∷ [])
IsRising-append n m [] e h k a r = (omega arith, tt)
IsRising-append n m (x ∷ xs) e h k a r = (r.0, IsRising-append x.seq m xs e a.0 k a.1 r.1)

module _ (s : Shared) (c : ℕ) (pk : ProvKey) (v : Any) where
  abbrev pub after : Shared
  after = (add_provide s c pk v).1

  abbrev pub closure : Inverse
  closure = unprovide pk (new_entry s c v)

  pub scope :
      (o : ℕ)
      → (unw after o ≡ unw s o)
        × ((after.contexts o).inverses
            ≡ (if c == o then (s.contexts o).inverses ++ closure ∷ [] else (s.contexts o).inverses))
  unfolding add_provide
  scope o = ground arith

  pub still-In :
      (o : ℕ) (x : Inverse) → In x (s.contexts o).inverses → In x (after.contexts o).inverses
  still-In o x m = elim (Bool-cases (c == o)) [
    | inl e ↦
        subst (In x) (sym ((scope o).1 ∙ rw e refl))
          (In-append_left x (s.contexts o).inverses (closure ∷ []) m)
    | inr e ↦ subst (In x) (sym ((scope o).1 ∙ rw e refl)) m
  ]

  added-In : In closure (after.contexts c).inverses
  added-In =
      let e : (c == c) ≡ true = ground arith in
      subst (In closure) (sym ((scope c).1 ∙ rw e refl))
        (In-append_right closure (s.contexts c).inverses (closure ∷ []) (inl refl))

  covers :
      (qk : ProvKey) (es : List ProvideEntry)
      → All (λ e. unw s e.owner ≡ false → In (unprovide qk e) (s.contexts e.owner).inverses) es
      → All
          (λ e. unw after e.owner ≡ false → In (unprovide qk e) (after.contexts e.owner).inverses)
          es
  covers qk [] h = tt
  covers qk (x ∷ xs) h = (
    λ live. still-In x.owner (unprovide qk x) (h.0 (sym (scope x.owner).0 ∙ live)),
    covers qk xs h.1,
  )

  owns : (o : ℕ) → All (IsOf o) (s.contexts o).inverses → All (IsOf o) (after.contexts o).inverses
  owns o h = elim (Bool-cases (c == o)) [
    | inl e ↦
        let own : c ≡ o = (==_iff c o).0 e in
        subst (All (IsOf o)) (sym ((scope o).1 ∙ rw e refl))
          (All-append (IsOf o) (s.contexts o).inverses (closure ∷ []) h ((own, tt)))
    | inr e ↦ subst (All (IsOf o)) (sym ((scope o).1 ∙ rw e refl)) h
  ]

  pub listed :
      (P : ProvKey → List ProvideEntry → Type 0)
      → P pk (entries s.provides pk ++ new_entry s c v ∷ [])
      → ((qk : ProvKey) → P qk (entries s.provides qk))
      → (qk : ProvKey) → P qk (entries after.provides qk)
  listed P a b qk =
      rw (entries-add_provide s c pk qk v)
        (elim (ProvKey-discrete pk qk)
          as (λ d.
            P qk (ite d (entries s.provides pk ++ new_entry s c v ∷ []) (entries s.provides qk))) [
              | yes p ↦ subst (λ k. P k (entries s.provides pk ++ new_entry s c v ∷ [])) p a
              | no p ↦ b qk
            ])

  added-IsRecoverable : IsDated s → IsRecoverable s → IsRecoverable after
  added-IsRecoverable d r =
      let Kept = λ (qk : ProvKey) (es : List ProvideEntry).
        All (λ e. unw after e.owner ≡ false → In (unprovide qk e) (after.contexts e.owner).inverses)
          es in
      record {
        covered =
            listed Kept
              (All-append _ (entries s.provides pk) _
                (covers pk (entries s.provides pk) (r.covered pk)) ((λ live. added-In), tt))
              (λ qk. covers qk (entries s.provides qk) (r.covered qk));
        own = λ o. owns o (r.own o);
        rising =
            listed (λ qk es. IsRising 0 es)
              (IsRising-append 0 s.seq (entries s.provides pk) (new_entry s c v) (omega arith)
                (omega arith) (d.dated pk) (r.rising pk))
              r.rising;
      }

-- From a recoverable state whose entries have numbers up to the shared counter, Provide leads to a
-- recoverable one, on every branch.
pub provide-IsRecoverable :
    (r : Reflect) (s : Shared) (c : ℕ) (key : Key) (v : Any)
    → IsDated s
    → IsRecoverable s
    → IsRecoverable (provide r s c key v).1
provide-IsRecoverable r s c key v d w = elim (provide-cases r s c key v) [
  | inl e ↦ subst IsRecoverable (sym e) w
  | inr e ↦ subst IsRecoverable (sym e) (added-IsRecoverable s c (prov_key s c key) v d w)
]
