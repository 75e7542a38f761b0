-- ===== src/Router.antt =====
-- examples/plugin-http/router.go: the multiplexer whose registrations are undone by inverses, and
-- the component that provides it.
pub mod Routes
use stc_go.Base.{ℕ, Bool, true, false, Option, none, some, [], ◌∷◌, if◌then◌else◌}
use stc_go.Base.Assoc.{Assoc, lookup, insert, delete}
use stc_go.Key.{Text, Text-discrete, Key}
use stc_go.Store.{Component}

-- `H` is http.Handler; `none` stands for a nil handler.
pub record Router (H : Type 0) : Type 0 where
  pub routes : Assoc Text (Option H)

-- The inverse that `handle` returns: its pattern, and whether its `once` is spent.
pub record Removal : Type 0 where
  pub pattern : Text
  pub spent : Bool

abbrev handler_of : {H : Type 0} → Option (Option H) → Option H
handler_of none = none
handler_of (some h) = h

module _ {H : Type 0} where
  unfoldable pub new_router : Router H
  new_router = record { routes = [] }

  -- handle
  unfoldable pub handle : Router H → Text → Option H → Removal × Router H
  handle rt pattern h = (
    record { pattern = pattern; spent = false },
    record { routes = insert Text-discrete pattern h rt.routes },
  )

  -- A call of the inverse.
  unfoldable pub remove : Removal → Router H → Removal × Router H
  remove u rt =
      if u.spent
      then (u, rt)
      else (record u { spent = true }, record { routes = delete Text-discrete u.pattern rt.routes })

  -- ServeHTTP: the handler that serves a path; for none of them, NotFound does.
  unfoldable pub serve : Router H → Text → Option H
  serve rt path = handler_of (lookup Text-discrete path rt.routes)

-- "router"
abbrev router_name : Text
router_name = 114 ∷ 111 ∷ 117 ∷ 116 ∷ 101 ∷ 114 ∷ []

-- component; `apply` names its Apply, which is `apply_provider` of Services with `routerKey` and
-- the router's pointer.
unfoldable pub component : Key → ℕ → Component
component router_key apply = record {
  name = router_name;
  inject = [];
  provide = router_key ∷ [];
  apply = some apply;
}
