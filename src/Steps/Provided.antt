-- ===== src/Steps/Provided.antt =====
-- Provide on a scope that stands adds an entry that stands.
use stc_go.Base.{
  ℕ, ◌≤◌, ◌<◌, ◌≡◌, ◌⊎◌, sym, ◌∙◌, subst, false, inl, inr, [], ◌∷◌, All, All-imp, All-append, arith,
}
use stc_go.Key.{Key, Any, Reflect}
use stc_go.Store.{ProvKey, unlisten, Shared, entries, is_inactive}
use stc_go.Services.{prov_key, add_provide, provide, checked_provide}
use stc_go.Services.Entries.{new_entry}
use stc_go.Unwind.Listeners.{heard}
use stc_go.Unwind.Provision.{scope, still-In, listed}
use stc_go.Steps.Heard.{Stands, IsHeard}

-- Provide adds an entry to a live scope, or nothing.
provide_live :
    (r : Reflect) (s : Shared) (c : ℕ) (key : Key) (v : Any)
    → ((provide r s c key v).1 ≡ s)
      ⊎ (((provide r s c key v).1 ≡ (add_provide s c (prov_key s c key) v).1)
          × (is_inactive s c ≡ false))
unfolding provide checked_provide
provide_live r s c key v = ground arith

module _ (s : Shared) (c : ℕ) (pk : ProvKey) (v : Any) where
  frame :
      ((add_provide s c pk v).1.next_context ≡ s.next_context)
      × (s.seq ≤ (add_provide s c pk v).1.seq)
      × ((add_provide s c pk v).1.listeners ≡ s.listeners)
  unfolding add_provide
  frame = ground arith

  stands : (o : ℕ) → Stands s o → Stands (add_provide s c pk v).1 o
  stands o h = (omega (arith, frame.0, h.0), (scope s c pk v o).0 ∙ h.1)

  add_provide-IsHeard :
      c < s.next_context → is_inactive s c ≡ false → IsHeard s → IsHeard (add_provide s c pk v).1
  unfolding is_inactive
  add_provide-IsHeard h e w =
      let u = (add_provide s c pk v).1 in
      let old = λ (qk : ProvKey).
        All-imp _ _ (λ x k. stands x.owner k) (entries s.provides qk) (w.standing qk) in
      record {
        standing =
            listed s c pk v (λ qk es. All (λ x. Stands u x.owner) es)
              (All-append _ (entries s.provides pk) (new_entry s c v ∷ []) (old pk)
                (stands c (h, ground arith), tt))
              old;
        listening = λ q. rw frame.2 (
            All-imp _ _
              (λ l k. (
                stands l.owner k.0,
                still-In s c pk v l.owner (unlisten q l.id) k.1,
                omega (arith, frame.1, k.2),
              ))
              (heard s q) (w.listening q));
        ascending = λ q. rw frame.2 (w.ascending q);
      }

pub provide-IsHeard :
    (r : Reflect) (s : Shared) (c : ℕ) (key : Key) (v : Any)
    → c < s.next_context
    → IsHeard s
    → IsHeard (provide r s c key v).1
provide-IsHeard r s c key v h w = elim (provide_live r s c key v) [
  | inl e ↦ subst IsHeard (sym e) w
  | inr (e, live) ↦ subst IsHeard (sym e) (add_provide-IsHeard s c (prov_key s c key) v h live w)
]
