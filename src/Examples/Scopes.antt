-- ===== src/Examples/Scopes.antt =====
-- Runs on one scope that provides one service.
use stc_go.Base.{
  ℕ, ◌≡◌, refl, subst, inl, true, false, Option, none, List, [], ◌∷◌, All, arith, ite, In,
}
use stc_go.Base.Assoc.{lookup}
use stc_go.Key.{Key, Reflect, Text, Error}
use stc_go.Key
use stc_go.Store.{
  Shared, ProvKey, ProvKey-discrete, ProvideEntry, unprovide, new, blank, update, entries,
}
use stc_go.Base.{◌≤◌, some}
use stc_go.Store.{is_inactive, Inverse}
use stc_go.Key.{assignable, realm_id}
use stc_go.Scope.{chain, ancestors, realm_among, realm_for_locked}
use stc_go.Services.{ok, provide, add_provide, foreign_provider, prov_key, resolve}
use stc_go.Services.Entries.{new_entry}
use stc_go.Store
use stc_go.Base.{if◌then◌else◌, ◌==◌, ◌++◌}
use stc_go.Key.{Text, Text-discrete}
use stc_go.Hooks.{on, emit}
use stc_go.Hooks.Delivery.{calls, emit-on}
use stc_go.Unwind.Order.{run_inverses-deeds}
use stc_go.Services.Visible.{resolve-provide}
use stc_go.Unwind.{run_inverse}
use stc_go.Unwind.Undo.{run_inverse-provide}
use stc_go.Unwind.{run_inverses}
use stc_go.Unwind.Recovery.{IsRising, IsOf}
use stc_go.Unwind.Spared.{IsRecoverable, unw}
use stc_go.Services.Waiting
use stc_go.Services.Waiting.{turns, turns-provide}

abbrev fine : ℕ → Option Error
fine n = none

abbrev db : Key
db = record { name = 100 ∷ 98 ∷ []; typ = none }

abbrev db_key : ProvKey
db_key = record { realm = 1; key = db }

-- The root provides a string.
abbrev entry : ProvideEntry
entry = record { ident = record { owner = 0; seq = 1 }; value = Key.text (120 ∷ []) }

abbrev held : Shared
held = record new {
  seq = 1;
  provides = (db_key, entry ∷ []) ∷ [];
  contexts = update new.contexts 0 (record (blank none) { inverses = unprovide db_key entry ∷ [] });
}

held-entries :
    (pk : ProvKey) → entries held.provides pk ≡ ite (ProvKey-discrete db_key pk) (entry ∷ []) []
unfolding entries lookup
held-entries pk = ground arith

-- What holds of the one list of entries and of every empty one holds of them all.
held-all :
    (P : ProvKey → List ProvideEntry → Type 0)
    → P db_key (entry ∷ [])
    → ((pk : ProvKey) → P pk [])
    → (pk : ProvKey) → P pk (entries held.provides pk)
held-all P a b pk =
    rw (held-entries pk) (elim (ProvKey-discrete db_key pk) as (λ d. P pk (ite d (entry ∷ []) [])) [
      | yes p ↦ subst (λ k. P k (entry ∷ [])) p a
      | no p ↦ b pk
    ])

abbrev plain_reflect : Reflect
plain_reflect = record { type_of = λ v. none; assignable_to = λ t u. true; asserts = λ t v. true }

held-own : (o : ℕ) → All (IsOf o) (held.contexts o).inverses
unfolding new
held-own o = ground arith

held-IsRecoverable : IsRecoverable held
held-IsRecoverable = record {
  covered =
      held-all
        (λ pk.
          All λ e. unw held e.owner ≡ false → In (unprovide pk e) (held.contexts e.owner).inverses)
        ((λ live. inl refl), tt) (λ pk. tt);
  own = held-own;
  rising = held-all (λ pk. IsRising 0) (omega arith, tt) (λ pk. tt);
}

-- A second provision by the root, and its inverse.
abbrev second : Inverse
second = unprovide db_key (record { ident = record { owner = 0; seq = 2 }; value = Key.nil })

abbrev held_twice : Shared
held_twice = (provide plain_reflect held 0 db Key.nil).1

second_provided : provide plain_reflect held 0 db Key.nil ≡ (ok second, held_twice)
unfolding provide add_provide foreign_provider new entries lookup is_inactive assignable
    realm_for_locked ancestors chain realm_among realm_id
second_provided = ground arith

resolve-provide_example : resolve held_twice 0 db ≡ some (new_entry held 0 Key.nil)
resolve-provide_example =
    resolve-provide plain_reflect held held_twice 0 db Key.nil second second_provided

held_old : All (λ x. x.seq ≤ held.seq) (entries held.provides (prov_key held 0 db))
held_old = held-all (λ pk. All (λ x. x.seq ≤ 1)) (omega arith, tt) (λ pk. tt) (prov_key held 0 db)

run_inverse-provide_example :
    entries (run_inverse fine held_twice second).1.provides db_key ≡ entries held.provides db_key
run_inverse-provide_example =
    run_inverse-provide fine plain_reflect held held_twice 0 db Key.nil second db_key
      second_provided held_old

-- A caller's inverse that fails, and one that does not.
abbrev failing : ℕ → Option Error
failing n = if n == 7 then some Key.canceled else none

run_inverses-deeds_example :
    ((run_inverses failing held (Store.user 7 ∷ Store.user 8 ∷ []) none).1.deeds
      ≡ held.deeds ++ Store.undone 7 ∷ Store.undone 8 ∷ [])
    × ((run_inverses failing held (Store.user 7 ∷ Store.user 8 ∷ []) none).0 ≡ some Key.canceled)
run_inverses-deeds_example = run_inverses-deeds failing held (Store.user 7 ∷ Store.user 8 ∷ []) none

abbrev ready : Text
ready = 114 ∷ []

root_is_live : is_inactive held 0 ≡ false
unfolding is_inactive
root_is_live = refl

emit-on_example :
    (emit (on held 0 ready 3).1 ready []).deeds
    ≡ held.deeds
      ++ ite
          (Text-discrete ready ready)
          (calls held ready [] ++ Store.called 3 [] ∷ [])
          (calls held ready [])
emit-on_example = emit-on held 0 ready ready 3 [] root_is_live

-- The caller has blocked before the root provides.
turns-provide_example :
    turns 3 held_twice 0 db (Waiting.blocked held.svc_wakes) ≡ Waiting.returned (ok Key.nil)
turns-provide_example =
    turns-provide plain_reflect held held_twice 0 db Key.nil second (Waiting.blocked held.svc_wakes)
      second_provided (omega arith)
