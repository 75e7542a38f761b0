-- ===== src/Key.antt =====
-- key.go: service keys, the chain of isolation realms, and the errors of the package. Go's `any`,
-- and what package reflect tells of a value, stand here too.
use stc_go.Base.{ℕ, ◌+◌, Bool, true, false, Option, none, some, List, [], ◌∷◌, ℕ_discrete}

-- A Go string: its bytes.
abbrev pub Text : Type 0
Text = List ℕ

unfoldable pub Text-discrete : Discrete Text
unfolding ℕ_discrete
Text-discrete = hlevel ℕ_discrete

-- A run-time type (reflect.Type) is a comparable descriptor: a number.
abbrev pub Typ : Type 0
Typ = ℕ

unfoldable pub Typ?-discrete : Discrete (Option Typ)
unfolding ℕ_discrete
Typ?-discrete = hlevel ℕ_discrete

pub record Key : Type 0 where
  pub name : Text
  pub typ : Option Typ

unfoldable pub Key-discrete : Discrete Key
unfolding Text-discrete Typ?-discrete
Key-discrete = hlevel (Text-discrete, Typ?-discrete)

-- reflect.TypeFor[T]() is the descriptor `t`.
unfoldable pub new_key : Typ → Text → Key
new_key t name = record { name = name; typ = some t }

unfoldable pub untyped_key : Text → Key
untyped_key name = record { name = name; typ = none }

-- A value of type `any`: nil, a string, or a value of another type, told apart by a number.
pub data Any : Type 0 where
  nil : Any
  text : Text → Any
  dyn : Typ → ℕ → Any

-- What package reflect and the type assertion `v.(T)` answer.
pub record Reflect : Type 0 where
  pub type_of : Any → Option Typ
  pub assignable_to : Typ → Typ → Bool
  pub asserts : Typ → Any → Bool

-- The check of `Set` and `Provide`: an untyped key takes every value, a typed one takes no nil.
assignable_type : Reflect → Typ → Option Typ → Bool
assignable_type r t none = false
assignable_type r t (some v) = r.assignable_to v t

assignable_at : Reflect → Option Typ → Any → Bool
unfolding assignable_type
assignable_at r none v = true
assignable_at r (some t) v = assignable_type r t (r.type_of v)

unfoldable pub assignable : Reflect → Key → Any → Bool
unfolding assignable_at
assignable r k v = assignable_at r k.typ v

-- A realm is its own identity, its name and, but for the root, its parent.
pub data Realm : Type 0 where
  top : ℕ → Text → Realm
  sub : ℕ → Text → Realm → Realm

-- Pointers to realms are compared by the number that `realmSeq` gave out.
unfoldable pub realm_id : Realm → ℕ
realm_id (top n name) = n
realm_id (sub n name r) = n

-- "root"
abbrev pub root_realm : Realm
root_realm = top 1 (114 ∷ 111 ∷ 111 ∷ 116 ∷ [])

abbrev realm_or_root : Option Realm → Realm
realm_or_root none = root_realm
realm_or_root (some r) = r

-- `realmSeq` is the counter; the result is its new value and the realm.
unfoldable pub new_realm : ℕ → Option Realm → Text → ℕ × Realm
new_realm seq parent name = (seq + 1, sub (seq + 1) name (realm_or_root parent))

pub data Error : Type 0 where
  inactive nil_install not_root disposed no_apply canceled : Error
  duplicate_provide : Text → ℕ → Error
  not_assignable not_provided wrong_type : Text → Error
  user : ℕ → Error
