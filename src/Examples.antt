-- ===== src/Examples.antt =====
-- Runs of the components on small states: one fiber, one service, one registry, one burst of file
-- events.
mod Scopes
mod Tools
mod Guests
mod Runs
mod Gates
mod Sites
use stc_go.Base.{ℕ, ◌≡◌, ◌≢◌, refl, ap, Option, none, some, [], ◌∷◌, All}
use stc_go.Key.{Error}
use stc_go.Key
use stc_go.Trace
use stc_go.Store.{Shared, Fiber, Component, FiberState, new, new_fiber, update, trace_user}
use stc_go.Store
use stc_go.Services.{provide}
use stc_go.Fiber.{deps_satisfied}
use stc_go.Orchestrator.{handle, begin_load, settle_with}
use stc_go.Orchestrator.Frames.{Life, life, begin_load-life}
use stc_go.Orchestrator.Progress.{IsSettled, settle-total}
use stc_go.Orchestrator.Moves.{CanReload, handle_loading}
use stc_go.Loop.{orchestrate}
use stc_go.Loop.Exit.{orchestrate-IsSettled}

-- The callers' inverses end without an error.
abbrev fine : ℕ → Option Error
fine n = none

-- A component that injects nothing.
abbrev plain : Component
plain = record { name = 97 ∷ []; inject = []; provide = []; apply = some 5 }

abbrev with_state : FiberState → Fiber
with_state st = record (new_fiber plain 0) { state = st }

-- Fiber 1, registered, in a state, with nothing under way.
abbrev one_fiber : FiberState → Shared
one_fiber st = record new { fibers = update new.fibers 1 (with_state st); registry = 1 ∷ [] }

abbrev waiting : Shared
waiting = one_fiber Store.pending

abbrev ending : Shared
ending = one_fiber Store.unloading

ending_waits : (life ending 1).state ≢ Store.loading
ending_waits e = cc

ending_handled :
    handle fine ending (Store.unwound 1) ≡ begin_load (trace_user ending Trace.unwound 1) 1
unfolding handle new deps_satisfied trace_user
ending_handled = refl

ending_loads : (life (handle fine ending (Store.unwound 1)) 1).state ≡ Store.loading
ending_loads =
    rw ending_handled
      (ap (λ (l : Life). l.state) (begin_load-life (trace_user ending Trace.unwound 1) 1 1))

handle_loading_example :
    (Store.unwound 1 ≡ Store.unwound 1) × CanReload (trace_user ending Trace.unwound 1) 1
handle_loading_example = handle_loading fine ending (Store.unwound 1) 1 ending_waits ending_loads

settle-total_example :
    (u : Shared) × (settle_with 2 waiting ≡ some u) × All (IsSettled u) u.registry
unfolding new
settle-total_example = settle-total waiting refl

-- A fiber that waits, and the news of a service.
abbrev told : Shared
told = record waiting { orch = record new.orch { inbox = Store.service ∷ []; inflight = 1 } }

orchestrate-IsSettled_example :
    All (IsSettled (orchestrate fine told)) (orchestrate fine told).registry
unfolding new
orchestrate-IsSettled_example = orchestrate-IsSettled fine told Store.service [] refl refl refl
