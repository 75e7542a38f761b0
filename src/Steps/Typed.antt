-- ===== src/Steps/Typed.antt =====
-- What is provided under a typed key has its type, in every state that an application can come to.
use stc_go.Base.{
  ℕ, ◌≡◌, ◌≢◌, refl, sym, ap, ◌∙◌, subst, true, false, Bool-cases, inl, inr, Option, none, some,
  Option-cases, List, [], ◌∷◌, arith, All, All-append, last?, or_else,
}
use stc_go.Base.Assoc.{lookup}
use stc_go.Key.{Key, Any, Typ, Error, wrong_type, Reflect, Realm, top, sub, assignable}
use stc_go.Store.{ProvKey, ProvideEntry, Shared, new, entries}
use stc_go.Scope.{realm_for_locked}
use stc_go.Services.{err, prov_key, add_provide, provide, resolve_in, resolve, typed, service}
use stc_go.Services.Visible.{provide-cases}
use stc_go.Orchestrator.Settle.{unsome}
use stc_go.Steps.{is_callers, Reach, begin, step}
use stc_go.Steps.Tidy.{Case, scoped, provides, Step-cases, Reach-IsTidy, with_entry}

module _ (r : Reflect) where
  -- Each value under a key passes the check that Provide makes.
  abbrev IsTyped : Shared → Type 0
  IsTyped s = (pk : ProvKey) → All (λ e. assignable r pk.key e.value ≡ true) (entries s.provides pk)

  add_provide-IsTyped :
      (s : Shared) (c : ℕ) (k : Key) (v : Any)
      → assignable r k v ≡ true
      → IsTyped s
      → IsTyped (add_provide s c (prov_key s c k) v).1
  add_provide-IsTyped s c k v h t = λ qk.
      with_entry s c (prov_key s c k) qk v (All (λ e. assignable r qk.key e.value ≡ true))
        (λ e es a. All-append _ es _ a (ap (λ (p : ProvKey). assignable r p.key v) (sym e) ∙ h, tt))
        (t qk)

  refused_type :
      (s : Shared) (c : ℕ) (k : Key) (v : Any)
      → assignable r k v ≡ false
      → (provide r s c k v).1 ≡ s
  unfolding provide
  refused_type s c k v e = ground (arith, e)

  provide-IsTyped :
      (s : Shared) (c : ℕ) (k : Key) (v : Any) → IsTyped s → IsTyped (provide r s c k v).1
  provide-IsTyped s c k v t = elim (Bool-cases (assignable r k v)) [
    | inr e ↦ subst IsTyped (sym (refused_type s c k v e)) t
    | inl h ↦ elim (provide-cases r s c k v) [
      | inl e ↦ subst IsTyped (sym e) t
      | inr e ↦ subst IsTyped (sym e) (add_provide-IsTyped s c k v h t)
    ]
  ]

  last-All :
      (P : ProvideEntry → Type 0) (es : List ProvideEntry) (e : ProvideEntry)
      → All P es
      → last? es ≡ some e
      → P e
  unfolding last?
  last-All P [] e h k = absurd {A = P e} (let n : none ≡ some e = k in cc)
  last-All P (x ∷ []) e h k = subst P (unsome k) h.0
  last-All P (x ∷ y ∷ ys) e h k = last-All P (y ∷ ys) e h.1 k

  resolved :
      (s : Shared) (k : Key) (m : Realm) (e : ProvideEntry)
      → IsTyped s
      → resolve_in s k m ≡ some e
      → assignable r k e.value ≡ true
  unfolding resolve_in
  resolved s k (top n name) e t h = last-All _ _ e (t (record { realm = n; key = k })) h
  resolved s k (sub n name p) e t h =
      elim (Option-cases (last? (entries s.provides (record { realm = n; key = k })))) [
        | inl o ↦ resolved s k p e t (sym (ap (λ q. or_else q (resolve_in s k p)) o) ∙ h)
        | inr (x, o) ↦
            last-All _ _ e (t (record { realm = n; key = k }))
              (o ∙ sym (ap (λ q. or_else q (resolve_in s k p)) o) ∙ h)
      ]

  module _ (outcome : ℕ → Option Error) where
    Case-IsTyped : (s t : Shared) → Case r outcome s t → IsTyped s → IsTyped t
    Case-IsTyped s t (scoped w) v = λ pk. w.fewer pk _ (v pk)
    Case-IsTyped s t (provides c k x h e) v = subst IsTyped e (provide-IsTyped s c k x v)

    new-IsTyped : IsTyped new
    unfolding new entries lookup
    new-IsTyped = λ pk. tt

    Reach-IsTyped : {s : Shared} → Reach r outcome is_callers s → IsTyped s
    Reach-IsTyped begin = new-IsTyped
    Reach-IsTyped (step {s} {t} p q) =
        Case-IsTyped s t (Step-cases r outcome q (Reach-IsTidy r outcome p)) (Reach-IsTyped p)

    read :
        (s : Shared) (c : ℕ) (k : Key) (t : Typ) (o : Option ProvideEntry)
        → ((v : Any) → assignable r k v ≡ true → r.asserts t v ≡ true)
        → IsTyped s
        → resolve s c k ≡ o
        → typed r t k o ≢ err (wrong_type k.name)
    unfolding typed resolve
    read s c k t none law v e = λ q. ground (arith, q)
    read s c k t (some x) law v e =
        let h = law x.value (resolved s k (realm_for_locked s c k) x v e) in
        λ q. ground (arith, h, q)

    -- In every state that an application can come to from New, where each inverse that an Apply
    -- has returned is a function of its own, Service never finds a value of the wrong type under a
    -- key of which every value that Provide accepts passes the type assertion.
    pub Reach-service :
        (s : Shared) (c : ℕ) (k : Key) (t : Typ)
        → ((v : Any) → assignable r k v ≡ true → r.asserts t v ≡ true)
        → Reach r outcome is_callers s
        → service r t s c k ≢ err (wrong_type k.name)
    unfolding service
    Reach-service s c k t law p = read s c k t (resolve s c k) law (Reach-IsTyped p) refl
