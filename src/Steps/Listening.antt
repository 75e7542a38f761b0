-- ===== src/Steps/Listening.antt =====
-- On adds a listener to a scope that stands.
use stc_go.Base.{
  ℕ, ◌+◌, ◌≤◌, ◌<◌, ◌≡◌, refl, sym, ◌∙◌, subst, Bool-cases, true, false, inl, inr, List, [], ◌∷◌,
  ◌++◌, All, All-imp, All-append, In, In-append_left, In-append_right, arith, ite, if◌then◌else◌,
  ◌==◌,
}
use stc_go.Key.{Text, Text-discrete}
use stc_go.Store.{Inverse, unlisten, Shared, ListenerEntry, entries, is_inactive}
use stc_go.Hooks.{on}
use stc_go.Hooks.Delivery.{listeners-on}
use stc_go.Unwind.Spared.{unw}
use stc_go.Unwind.Listeners.{heard, Ascends}
use stc_go.Steps.Heard.{Stands, Listens, IsHeard}

-- A listener that was not withdrawn joins the others of its event.
Ascends-append :
    (n m : ℕ) (ls : List ListenerEntry) (l : ListenerEntry)
    → n ≤ m
    → m < l.id
    → All (λ x. x.id ≤ m) ls
    → Ascends n ls
    → Ascends n (ls ++ l ∷ [])
Ascends-append n m [] l h k a r = (omega (arith, h, k), tt)
Ascends-append n m (x ∷ xs) l h k a r = (r.0, Ascends-append x.id m xs l a.0 k a.1 r.1)

module _ (s : Shared) (c : ℕ) (name : Text) (fn : ℕ) where
  on-closed : is_inactive s c ≡ true → (on s c name fn).1 ≡ s
  unfolding on
  on-closed e = ground arith

  on-frame :
      is_inactive s c ≡ false
      → ((on s c name fn).1.next_context ≡ s.next_context)
        × ((on s c name fn).1.seq ≡ s.seq + 1)
        × ((on s c name fn).1.provides ≡ s.provides)
        × ((o : ℕ)
            → (unw (on s c name fn).1 o ≡ unw s o)
              × (((on s c name fn).1.contexts o).inverses ≡ (
                  if c == o
                  then (s.contexts o).inverses ++ unlisten name (s.seq + 1) ∷ []
                  else (s.contexts o).inverses)))
  unfolding on
  on-frame e = (ground arith, ground arith, ground arith, λ o. ground arith)

  joined : ListenerEntry
  joined = record { id = s.seq + 1; owner = c; fn = fn }

  with_listener :
      is_inactive s c ≡ false
      → (P : Text → List ListenerEntry → Type 0) → P name (heard s name ++ joined ∷ [])
      → ((q : Text) → P q (heard s q))
      → (q : Text) → P q (heard (on s c name fn).1 q)
  unfolding joined
  with_listener e P a b q =
      rw (listeners-on s c name q fn e)
        (elim (Text-discrete name q)
          as (λ d. P q (ite d (heard s name ++ joined ∷ []) (heard s q))) [
            | yes p ↦ subst (λ m. P m (heard s name ++ joined ∷ [])) p a
            | no p ↦ b q
          ])

  on-In :
      is_inactive s c ≡ false
      → (o : ℕ) (i : Inverse) → In i (s.contexts o).inverses
      → In i ((on s c name fn).1.contexts o).inverses
  on-In e o i m = rw ((on-frame e).3 o).1 (elim (Bool-cases (c == o)) [
    | inl k ↦ rw k (In-append_left i (s.contexts o).inverses _ m)
    | inr k ↦ rw k m
  ])

  on-Stands : is_inactive s c ≡ false → (o : ℕ) → Stands s o → Stands (on s c name fn).1 o
  on-Stands e o h = (omega (arith, (on-frame e).0, h.0), ((on-frame e).3 o).0 ∙ h.1)

  on-Listens :
      is_inactive s c ≡ false
      → (q : Text) (l : ListenerEntry) → Listens s q l
      → Listens (on s c name fn).1 q l
  on-Listens e q l h = (
    on-Stands e l.owner h.0,
    on-In e l.owner (unlisten q l.id) h.1,
    omega (arith, (on-frame e).1, h.2),
  )

  joined-Listens :
      is_inactive s c ≡ false → c < s.next_context → Listens (on s c name fn).1 name joined
  unfolding joined is_inactive
  joined-Listens e h =
      let same : (c == c) ≡ true = ground arith in
      (
        on-Stands e c (h, ground arith),
        rw (((on-frame e).3 c).1, same)
            (In-append_right (unlisten name (s.seq + 1)) (s.contexts c).inverses _ (inl refl)),
        omega (arith, (on-frame e).1),
      )

  on-open : is_inactive s c ≡ false → c < s.next_context → IsHeard s → IsHeard (on s c name fn).1
  unfolding joined
  on-open e h v =
      let old = λ (q : Text). All-imp _ _ (on-Listens e q) (heard s q) (v.listening q) in
      record {
        standing = λ pk.
            rw (on-frame e).2
              (All-imp _ _ (λ x k. on-Stands e x.owner k) (entries s.provides pk) (v.standing pk));
        listening =
            with_listener e (λ q ls. All (Listens (on s c name fn).1 q) ls)
              (All-append _ (heard s name) _ (old name) (joined-Listens e h, tt)) old;
        ascending =
            with_listener e (λ q ls. Ascends 0 ls)
              (Ascends-append 0 s.seq (heard s name) joined (omega arith) (omega arith)
                (All-imp _ _ (λ l k. k.2) (heard s name) (v.listening name)) (v.ascending name))
              v.ascending;
      }

  pub on-IsHeard : c < s.next_context → IsHeard s → IsHeard (on s c name fn).1
  on-IsHeard h v = elim (Bool-cases (is_inactive s c)) [
    | inl e ↦ subst IsHeard (sym (on-closed e)) v
    | inr e ↦ on-open e h v
  ]
