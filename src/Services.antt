-- ===== src/Services.antt =====
-- context.go: providing services and resolving them along the chain of realms.
pub mod Entries
pub mod Visible
pub mod Waiting
pub mod WellFormed
use stc_go.Base.{
  ℕ, ◌+◌, Bool, true, false, Option, none, some, or_else, ite, List, [], ◌∷◌, ◌++◌, last?,
  drop_first, if◌then◌else◌, ◌==◌,
}
use stc_go.Base.Assoc.{insert, delete}
use stc_go.Key.{
  Key, Any, Typ, Reflect, assignable, Realm, top, sub, realm_id, Error, inactive, duplicate_provide,
  not_assignable, not_provided, wrong_type,
}
use stc_go.Trace
use stc_go.Store.{
  ProvKey, ProvKey-discrete, ProvideEntry, same, Context, Inverse, unprovide, Shared, set_context,
  entries, trace_locked, wake_service_watchers, notify_orch, fiber_id, is_inactive,
}
use stc_go.Scope.{realm_for_locked}

pub data Result {ℓ} (A : Type ℓ) : Type ℓ where
  ok : A → Result A
  err : Error → Result A

-- Pointer inequality of the owners, where `o` is the fiber of an entry and `f` that of the caller.
abbrev pub foreign : Option ℕ → Option ℕ → Option ℕ
foreign none f = none
foreign (some o) none = some o
foreign (some o) (some f) = if o == f then none else some o

-- The loop that refuses a second provider: the first entry that another fiber owns.
unfoldable pub foreign_provider : (ℕ → Context) → Option ℕ → List ProvideEntry → Option ℕ
foreign_provider h f [] = none
foreign_provider h f (e ∷ es) = or_else (foreign (h e.owner).fiber f) (foreign_provider h f es)

abbrev pub prov_key : Shared → ℕ → Key → ProvKey
prov_key s c key = record { realm = realm_id (realm_for_locked s c key); key = key }

-- The part of `Provide` that changes the state.
unfoldable pub add_provide : Shared → ℕ → ProvKey → Any → Inverse × Shared
unfolding trace_locked wake_service_watchers notify_orch
add_provide s c pk value =
    let entry : ProvideEntry = record {
      ident = record { owner = c; seq = s.seq + 1 };
      value = value;
    } in
    let inv = unprovide pk entry in
    let s' = record s {
      seq = s.seq + 1;
      provides = insert ProvKey-discrete pk (entries s.provides pk ++ entry ∷ []) s.provides;
    } in
    let traced = trace_locked s' Trace.provide (fiber_id s c) pk.key.name in
    let x = traced.contexts c in
    (
      inv,
      notify_orch (
          wake_service_watchers
            (set_context traced c (record x { inverses = x.inverses ++ inv ∷ [] }))),
    )

unfoldable pub checked_provide : Option ℕ → Shared → ℕ → ProvKey → Any → Result Inverse × Shared
checked_provide (some o) s c pk value = (err (duplicate_provide pk.key.name o), s)
checked_provide none s c pk value = let (inv, s') = add_provide s c pk value in (ok inv, s')

-- Provide
unfoldable pub provide : Reflect → Shared → ℕ → Key → Any → Result Inverse × Shared
unfolding checked_provide
provide r s c key value =
    let pk = prov_key s c key in
    let other = foreign_provider s.contexts (s.contexts c).fiber (entries s.provides pk) in
    if assignable r key value
    then (if is_inactive s c then (err inactive, s) else checked_provide other s c pk value)
    else (err (not_assignable key.name), s)

unfoldable pub has_same : ProvideEntry → List ProvideEntry → Bool
has_same e [] = false
has_same e (x ∷ xs) = ite (same x e) true (has_same e xs)

-- `delete(sh.provides, pk)` where nothing is left.
unfoldable pub put_entries : ProvKey → List ProvideEntry → Shared → Shared
put_entries pk [] s = record s { provides = delete ProvKey-discrete pk s.provides }
put_entries pk (e ∷ es) s = record s { provides = insert ProvKey-discrete pk (e ∷ es) s.provides }

-- removeProvide: a second withdrawal of the same entry does nothing at all.
unfoldable pub remove_provide : Shared → ProvKey → ProvideEntry → Shared
unfolding has_same put_entries drop_first trace_locked wake_service_watchers notify_orch
remove_provide s pk e =
    let st = entries s.provides pk in
    if has_same e st
    then notify_orch (
        wake_service_watchers (
          trace_locked (put_entries pk (drop_first (λ x. same x e) st) s) Trace.unprovide
            (fiber_id s e.owner) pk.key.name))
    else s

-- resolve: the last entry of the nearest realm that has one.
unfoldable pub resolve_in : Shared → Key → Realm → Option ProvideEntry
resolve_in s key (top n name) = last? (entries s.provides (record { realm = n; key = key }))
resolve_in s key (sub n name parent) =
    or_else (last? (entries s.provides (record { realm = n; key = key }))) (resolve_in s key parent)

unfoldable pub resolve : Shared → ℕ → Key → Option ProvideEntry
unfolding resolve_in
resolve s c key = resolve_in s key (realm_for_locked s c key)

abbrev owned_by : (ℕ → Context) → Option ℕ → ProvideEntry → Bool
owned_by h none e = false
owned_by h (some f) e = elim (h e.owner).fiber [ none ↦ false | some o ↦ o == f ]

-- The loop of `resolveExternal` over one realm's entries, from the last to the first.
unfoldable pub last_external : (ℕ → Context) → Option ℕ → List ProvideEntry → Option ProvideEntry
last_external h self [] = none
last_external h self (e ∷ es) =
    or_else (last_external h self es) (if owned_by h self e then none else some e)

external_in : Shared → Option ℕ → Key → Realm → Option ProvideEntry
unfolding last_external
external_in s self key (top n name) =
    last_external s.contexts self (entries s.provides (record { realm = n; key = key }))
external_in s self key (sub n name parent) =
    or_else (last_external s.contexts self (entries s.provides (record { realm = n; key = key })))
      (external_in s self key parent)

-- resolveExternal
unfoldable pub resolve_external : Shared → ℕ → Key → Option ℕ → Option ProvideEntry
unfolding external_in
resolve_external s c key self = external_in s self key (realm_for_locked s c key)

unfoldable pub typed : Reflect → Typ → Key → Option ProvideEntry → Result Any
typed r t key none = err (not_provided key.name)
typed r t key (some e) = if r.asserts t e.value then ok e.value else err (wrong_type key.name)

-- Service[T], where `t` is the descriptor of T.
unfoldable pub service : Reflect → Typ → Shared → ℕ → Key → Result Any
unfolding typed
service r t s c key = typed r t key (resolve s c key)

failure_of : {A : Type 0} → Result A × Shared → Option Error × Shared
failure_of (ok a, s) = (none, s)
failure_of (err e, s) = (some e, s)

-- Apply of a component that provides one value and has no inverse of its own.
unfoldable pub apply_provider : Reflect → Shared → ℕ → Key → Any → Option Error × Shared
unfolding failure_of
apply_provider r s c key value = failure_of (provide r s c key value)
