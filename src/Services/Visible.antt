-- ===== src/Services/Visible.antt =====
-- The last provider is the visible one, and its withdrawal uncovers what was visible before.
use stc_go.Base.{
  ◌⊎◌, ℕ, zero, suc, ◌+◌, ◌≤◌, ◌≡◌, refl, sym, ap, ◌∙◌, Option, none, some, List, [], ◌∷◌, ◌++◌,
  All, last?, last?-append, drop_first, arith, ite, if_neg,
}
use stc_go.Key.{Key, Any, Reflect, Realm, top, sub, realm_id}
use stc_go.Store.{
  Context, Inverse, ProvKey, ProvKey-discrete, ProvideEntry, unprovide, same, Shared, entries,
}
use stc_go.Scope.{chain, ancestors, realm_among, realm_for_locked}
use stc_go.Services.{
  ok, prov_key, add_provide, checked_provide, provide, remove_provide, resolve_in, resolve,
}
use stc_go.Services.Entries.{new_entry, without, entries-add_provide, entries-remove_provide}

-- Realms are read off the contexts' parents and declarations.
chain-same :
    (fuel : ℕ) (h k : ℕ → Context) (c : ℕ)
    → ((x : ℕ) → (k x).parent ≡ (h x).parent)
    → chain fuel k c ≡ chain fuel h c
unfolding chain
chain-same zero h k c e = refl
chain-same (suc fuel) h k c e =
    let up = λ (g : ℕ → Context) (o : Option ℕ). elim o as (λ _. List ℕ) [
      | none ↦ []
      | some p ↦ chain fuel g p
    ] in
    ap (◌∷◌ c) (
      ap (up k) (e c) ∙ (elim (h c).parent as (λ o. up k o ≡ up h o) [
        | none ↦ refl
        | some p ↦ chain-same fuel h k p e
      ]))

realm_among-same :
    (h k : ℕ → Context) (key : Key) (xs : List ℕ)
    → ((x : ℕ) → (k x).realm_for ≡ (h x).realm_for)
    → realm_among k key xs ≡ realm_among h key xs
unfolding realm_among
realm_among-same h k key [] e = refl
realm_among-same h k key (x ∷ xs) e = ground (arith, e x, realm_among-same h k key xs e)

add_provide-scopes :
    (s : Shared) (c : ℕ) (pk : ProvKey) (v : Any) (x : ℕ)
    → (((add_provide s c pk v).1.contexts x).parent ≡ (s.contexts x).parent)
      × (((add_provide s c pk v).1.contexts x).realm_for ≡ (s.contexts x).realm_for)
unfolding add_provide
add_provide-scopes s c pk v x = ground arith

realm-add_provide :
    (s : Shared) (c d : ℕ) (pk : ProvKey) (v : Any) (key : Key)
    → realm_for_locked (add_provide s c pk v).1 d key ≡ realm_for_locked s d key
unfolding realm_for_locked ancestors
realm-add_provide s c d pk v key =
    realm_among-same s.contexts (add_provide s c pk v).1.contexts key
      (chain (suc d) (add_provide s c pk v).1.contexts d) (λ x. (add_provide-scopes s c pk v x).1)
    ∙ ap (realm_among s.contexts key) (
        chain-same (suc d) s.contexts (add_provide s c pk v).1.contexts d
          (λ x. (add_provide-scopes s c pk v x).0))

resolve_in-head :
    (s : Shared) (key : Key) (r : Realm) (e : ProvideEntry)
    → last? (entries s.provides (record { realm = realm_id r; key = key })) ≡ some e
    → resolve_in s key r ≡ some e
unfolding resolve_in realm_id
resolve_in-head s key (top n name) e h = h
resolve_in-head s key (sub n name r) e h = rw h refl

ite_same {ℓ} : {A : Type ℓ} (pk : ProvKey) (a b : A) → ite (ProvKey-discrete pk pk) a b ≡ a
ite_same pk a b = ground arith

resolve-add_provide :
    (s : Shared) (c : ℕ) (key : Key) (v : Any)
    → resolve (add_provide s c (prov_key s c key) v).1 c key ≡ some (new_entry s c v)
unfolding resolve
resolve-add_provide s c key v =
    let pk = prov_key s c key in
    let u = (add_provide s c pk v).1 in
    let listed = entries-add_provide s c pk pk v ∙ ite_same pk _ _ in
    ap (resolve_in u key) (realm-add_provide s c c pk v key)
    ∙ resolve_in-head u key (realm_for_locked s c key) (new_entry s c v) (
        ap (λ (l : List ProvideEntry). last? l) listed
        ∙ last?-append (entries s.provides pk) (new_entry s c v))

-- What a call of `Provide` that succeeds does to the state.
pub provided :
    (r : Reflect) (s u : Shared) (c : ℕ) (key : Key) (v : Any) (i : Inverse)
    → provide r s c key v ≡ (ok i, u)
    → (unprovide (prov_key s c key) (new_entry s c v) ≡ i)
      × ((add_provide s c (prov_key s c key) v).1 ≡ u)
unfolding provide checked_provide add_provide
provided r s u c key v i e = ground arith

-- Where Provide succeeds, its context resolves the key to the entry that it has just made.
pub resolve-provide :
    (r : Reflect) (s u : Shared) (c : ℕ) (key : Key) (v : Any) (i : Inverse)
    → provide r s c key v ≡ (ok i, u)
    → resolve u c key ≡ some (new_entry s c v)
resolve-provide r s u c key v i e =
    sym (ap (λ x. resolve x c key) (provided r s u c key v i e).1) ∙ resolve-add_provide s c key v

without_last :
    (n : ℕ) (e : ProvideEntry) (es : List ProvideEntry)
    → e.seq ≡ n + 1
    → All (λ x. x.seq ≤ n) es
    → without e (es ++ e ∷ []) ≡ es
unfolding drop_first same
without_last n e [] h k = ground arith
without_last n e (x ∷ xs) h k = ground (arith, k.0, without_last n e xs h k.1)

pub removed :
    (s : Shared) (c : ℕ) (pk qk : ProvKey) (v : Any)
    → All (λ x. x.seq ≤ s.seq) (entries s.provides pk)
    → entries (remove_provide (add_provide s c pk v).1 pk (new_entry s c v)).provides qk
      ≡ entries s.provides qk
removed s c pk qk v old =
    let u = (add_provide s c pk v).1 in
    let e = new_entry s c v in
    entries-remove_provide u pk qk e
    ∙ (elim (ProvKey-discrete pk qk)
        as (λ d.
          ite d (without e (entries u.provides pk)) (entries u.provides qk)
          ≡ entries s.provides qk) [
            | yes p ↦
                ap (without e) (entries-add_provide s c pk pk v ∙ ite_same pk _ _)
                ∙ without_last s.seq e (entries s.provides pk) refl old
                ∙ ap (entries s.provides) p
            | no p ↦ entries-add_provide s c pk qk v ∙ if_neg (ProvKey-discrete pk qk) p _ _
          ])

-- A call of `Provide` that is refused leaves the state alone, on every branch.
pub provide-cases :
    (r : Reflect) (s : Shared) (c : ℕ) (key : Key) (v : Any)
    → ((provide r s c key v).1 ≡ s)
      ⊎ ((provide r s c key v).1 ≡ (add_provide s c (prov_key s c key) v).1)
unfolding provide checked_provide
provide-cases r s c key v = ground arith
