-- ===== src/Hooks.antt =====
-- context.go: listeners and events.
pub mod Delivery
use stc_go.Base.{ℕ, ◌+◌, Option, none, some, List, [], ◌∷◌, ◌++◌, map, if◌then◌else◌}
use stc_go.Base.Assoc.{insert}
use stc_go.Key.{Text, Text-discrete, Any, Error, inactive}
use stc_go.Store.{ListenerEntry, unlisten, Shared, set_context, called, listeners_of, is_inactive}

-- On
unfoldable pub on : Shared → ℕ → Text → ℕ → Option Error × Shared
on s c name fn =
    let id = s.seq + 1 in
    let x = s.contexts c in
    let entry : ListenerEntry = record { id = id; owner = c; fn = fn } in
    let all = listeners_of s.listeners name ++ entry ∷ [] in
    if is_inactive s c then (some inactive, s) else (
      none,
      set_context (record s { seq = id; listeners = insert Text-discrete name all s.listeners }) c
          (record x { inverses = x.inverses ++ unlisten name id ∷ [] }),
    )

-- Emit calls, in order, the functions that were registered when it was called.
unfoldable pub emit : Shared → Text → List Any → Shared
emit s name args = record s {
  deeds = s.deeds ++ map (λ l. called l.fn args) (listeners_of s.listeners name);
}
