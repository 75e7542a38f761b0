-- ===== src/Scope.antt =====
-- context.go: the tree of scopes, its local values, and the configuration that a scope inherits
-- from those above it (realms and interceptors).
pub mod Ancestry
use stc_go.Base.{
  ℕ, zero, suc, ◌+◌, true, Option, none, some, or_else, List, [], ◌∷◌, ◌++◌, map, if◌then◌else◌,
  drop_first, ℕ_discrete,
}
use stc_go.Base.Assoc.{lookup, insert}
use stc_go.Key.{
  Key, Key-discrete, Any, Reflect, assignable, Realm, root_realm, Error, inactive, not_assignable,
}
use stc_go.Store.{
  Context, Inverse, unisolate, unintercept, InterceptEntry, Shared, set_context, blank,
  intercepts_of, is_inactive, wake_service_watchers, notify_orch,
}

-- `for x := c; x != nil; x = x.parent`: the scopes from `c` up to the root. Parents are older than
-- their children, so the address bounds the number of rounds.
unfoldable pub chain : ℕ → (ℕ → Context) → ℕ → List ℕ
chain zero h c = []
chain (suc fuel) h c = c ∷ (elim (h c).parent [ none ↦ [] | some p ↦ chain fuel h p ])

unfoldable pub ancestors : Shared → ℕ → List ℕ
unfolding chain
ancestors s c = chain (suc c) s.contexts c

-- Child: the address of the new scope, and the state with it.
unfoldable pub child : Shared → ℕ → ℕ × Shared
unfolding is_inactive
child s c =
    let n = s.next_context in
    let fresh = blank (some c) in
    if is_inactive s c
    then (n, set_context (record s { next_context = suc n }) n (record fresh { closed = true }))
    else (
      n,
      set_context (set_context (record s { next_context = suc n }) n fresh) c
          (record (s.contexts c) { children = (s.contexts c).children ++ n ∷ [] }),
    )

abbrev remove_child : Context → ℕ → Context
remove_child p c = record p { children = drop_first (λ x. ℕ_discrete x c) p.children }

abbrev detach_from : Shared → Option ℕ → ℕ → Shared
detach_from s none c = s
detach_from s (some p) c = set_context s p (remove_child (s.contexts p) c)

-- detach
unfoldable pub detach : Shared → ℕ → Shared
unfolding drop_first ℕ_discrete
detach s c = detach_from s (s.contexts c).parent c

-- Set
unfoldable pub set : Reflect → Shared → ℕ → Key → Any → Option Error × Shared
unfolding is_inactive
set r s c key value =
    if assignable r key value
    then (if is_inactive s c then (some inactive, s) else (
      none,
      set_context s c
          (record (s.contexts c) { values = insert Key-discrete key value (s.contexts c).values }),
    ))
    else (some (not_assignable key.name), s)

get_among : (ℕ → Context) → Key → List ℕ → Option Any
get_among h key [] = none
get_among h key (x ∷ xs) = or_else (lookup Key-discrete key (h x).values) (get_among h key xs)

-- Get: the nearest scope that holds the key.
unfoldable pub get : Shared → ℕ → Key → Option Any
unfolding get_among ancestors
get s c key = get_among s.contexts key (ancestors s c)

unfoldable pub realm_among : (ℕ → Context) → Key → List ℕ → Realm
realm_among h key [] = root_realm
realm_among h key (x ∷ xs) = elim (lookup Key-discrete key (h x).realm_for) [
  | none ↦ realm_among h key xs
  | some r ↦ r
]

-- realmForLocked
unfoldable pub realm_for_locked : Shared → ℕ → Key → Realm
unfolding realm_among ancestors
realm_for_locked s c key = realm_among s.contexts key (ancestors s c)

abbrev register : Context → Inverse → Context
register x i = record x { inverses = x.inverses ++ i ∷ [] }

abbrev realm_or_default : Option Realm → Realm
realm_or_default none = root_realm
realm_or_default (some r) = r

-- Isolate
unfoldable pub isolate : Shared → ℕ → Key → Option Realm → Option Error × Shared
unfolding is_inactive
isolate s c key r = if is_inactive s c then (some inactive, s) else (
  none,
  notify_orch (
      wake_service_watchers (
        set_context s c (
          register
            (record (s.contexts c) {
              realm_for = insert Key-discrete key (realm_or_default r) (s.contexts c).realm_for;
            })
            (unisolate c key)))),
)

-- Intercept
unfoldable pub intercept : Shared → ℕ → Key → Any → Option Error × Shared
unfolding is_inactive
intercept s c key meta =
    let id = s.seq + 1 in
    let x = s.contexts c in
    let entry : InterceptEntry = record { id = id; meta = meta } in
    if is_inactive s c then (some inactive, s) else (
      none,
      set_context (record s { seq = id }) c
          (register
            (record x {
              interc = insert Key-discrete key (intercepts_of x.interc key ++ entry ∷ []) x.interc;
            })
            (unintercept c key id)),
    )

interceptors_among : (ℕ → Context) → Key → List ℕ → List Any
interceptors_among h key [] = []
interceptors_among h key (x ∷ xs) =
    map (λ e. e.meta) (intercepts_of (h x).interc key) ++ interceptors_among h key xs

-- Interceptors: the metadata for the key, from the inside out.
unfoldable pub interceptors : Shared → ℕ → Key → List Any
unfolding interceptors_among ancestors
interceptors s c key = interceptors_among s.contexts key (ancestors s c)
