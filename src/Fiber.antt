-- ===== src/Fiber.antt =====
-- fiber.go, and the dependency checks of orchestrator.go: loading and disposing from outside, and
-- what a fiber's injected keys resolve to.
pub mod Listing
pub mod Waiting
pub mod Printing
use stc_go.Base.{ℕ, ◌+◌, Bool, true, false, Option, none, some, ite, List, [], ◌∷◌, if◌then◌else◌}
use stc_go.Base.Assoc.{Assoc, lookup, insert}
use stc_go.Base.Sort.{sort}
use stc_go.Key.{Text, Key, Key-discrete, Error, inactive, disposed}
use stc_go.Trace.{TraceKind}
use stc_go.Trace
use stc_go.Store.{
  ProvideIdent, ProvideIdent-discrete, ProvideEntry, FiberState, Component, Fiber, Shared,
  set_fiber, new_fiber, trace_locked, broadcast, send, is_inactive,
}
use stc_go.Store
use stc_go.Services.{resolve_external}

-- The handle of a refused load. Where the source leaves `home` nil nothing reads it.
refused : Component → ℕ → Error → Fiber
refused comp home e = record (new_fiber comp home) { err = some e; state = Store.failed }

queue_load : ℕ → Shared → Bool × Shared → Fiber → Shared
queue_load f s (true, s') x = set_fiber s' f x
queue_load f s (false, s') x = set_fiber s' f (refused x.comp x.home disposed)

-- Load: the new fiber, and the state. A fiber that is refused is never queued.
unfoldable pub load : Shared → ℕ → Component → ℕ × Shared
unfolding refused queue_load send is_inactive
load s c comp =
    let f = s.seq + 1 in
    let s' = record s { seq = f } in
    if is_inactive s c
    then (f, set_fiber s' f (refused comp c inactive))
    else (f, queue_load f s (send s' (Store.load f)) (new_fiber comp c))

-- Dispose
unfoldable pub dispose : Shared → ℕ → Shared
unfolding send
dispose s f = (send s (Store.dispose f)).1

-- Fibers: the registry in ascending order.
unfoldable pub fibers : Shared → List ℕ
fibers s = sort s.registry

-- Err: the error is told in the failed state only.
unfoldable pub fiber_err : Fiber → Option Error
fiber_err x = elim x.state [ Store.failed ↦ x.err | _ ↦ none ]

-- What one look at the state answers: `Ready` and `Gone` wait on while it is `none`.
unfoldable pub ready_now : Fiber → Option (Option Error)
ready_now x = elim x.state [
  | Store.active ↦ some none
  | Store.failed ↦ some x.err
  | Store.gone ↦ some (some disposed)
  | _ ↦ none
]

unfoldable pub gone_now : Fiber → Option (Option Error)
gone_now x = elim x.state [ Store.gone ↦ some none | Store.failed ↦ some none | _ ↦ none ]

abbrev pub trace_kind : FiberState → TraceKind
trace_kind Store.loading = Trace.loading
trace_kind Store.active = Trace.active
trace_kind Store.unloading = Trace.unloading
trace_kind Store.pending = Trace.pending
trace_kind Store.failed = Trace.failed
trace_kind Store.gone = Trace.gone

-- setState, with the trace and the broadcast that it makes.
unfoldable pub set_state : Shared → ℕ → FiberState → Shared
unfolding trace_locked broadcast
set_state s f st =
    broadcast
      (trace_locked (set_fiber s f (record (s.fibers f) { state = st })) (trace_kind st) f [])

abbrev context_or : Option ℕ → ℕ → ℕ
context_or none home = home
context_or (some c) home = c

-- resolveBase
unfoldable pub resolve_base : Fiber → ℕ
resolve_base x = context_or x.ctx_ptr x.home

-- One injected key, resolved without the fiber's own entries.
unfoldable pub dependency : Shared → ℕ → Key → Option ProvideEntry
unfolding resolve_base
dependency s f k = resolve_external s (resolve_base (s.fibers f)) k (some f)

all_provided : Shared → ℕ → List Key → Bool
all_provided s f [] = true
all_provided s f (k ∷ ks) = elim (dependency s f k) [ none ↦ false | some _ ↦ all_provided s f ks ]

-- depsSatisfied
unfoldable pub deps_satisfied : Shared → ℕ → Bool
unfolding all_provided
deps_satisfied s f = all_provided s f (s.fibers f).comp.inject

snapshot : Shared → ℕ → List Key → Assoc Key ProvideIdent → Assoc Key ProvideIdent
snapshot s f [] m = m
snapshot s f (k ∷ ks) m =
    snapshot s f ks
      (elim (dependency s f k) [ none ↦ m | some e ↦ insert Key-discrete k e.ident m ])

-- captureDeps
unfoldable pub capture_deps : Shared → ℕ → Shared
unfolding snapshot
capture_deps s f =
    let x = s.fibers f in set_fiber s f (record x { dep_snap = snapshot s f x.comp.inject [] })

-- `id != f.depSnap[k]`: a key without a snapshot reads as the zero identity, which no entry has.
differs : Option ProvideIdent → ProvideIdent → Bool
differs none id = true
differs (some old) id = ite (ProvideIdent-discrete id old) false true

any_stale : Shared → ℕ → Assoc Key ProvideIdent → List Key → Bool
unfolding differs
any_stale s f snap [] = false
any_stale s f snap (k ∷ ks) = elim (dependency s f k) [
  | none ↦ true
  | some e ↦ if differs (lookup Key-discrete k snap) e.ident then true else any_stale s f snap ks
]

-- depStale
unfoldable pub dep_stale : Shared → ℕ → Bool
unfolding any_stale
dep_stale s f = any_stale s f (s.fibers f).dep_snap (s.fibers f).comp.inject

-- FiberState.String
unfoldable pub state_text : FiberState → Text
state_text Store.pending = 112 ∷ 101 ∷ 110 ∷ 100 ∷ 105 ∷ 110 ∷ 103 ∷ []
state_text Store.loading = 108 ∷ 111 ∷ 97 ∷ 100 ∷ 105 ∷ 110 ∷ 103 ∷ []
state_text Store.active = 97 ∷ 99 ∷ 116 ∷ 105 ∷ 118 ∷ 101 ∷ []
state_text Store.unloading = 117 ∷ 110 ∷ 108 ∷ 111 ∷ 97 ∷ 100 ∷ 105 ∷ 110 ∷ 103 ∷ []
state_text Store.failed = 102 ∷ 97 ∷ 105 ∷ 108 ∷ 101 ∷ 100 ∷ []
state_text Store.gone = 103 ∷ 111 ∷ 110 ∷ 101 ∷ []

-- State, ID, Name and Context
unfoldable pub state_of : Shared → ℕ → FiberState
state_of s f = (s.fibers f).state

unfoldable pub name_of : Shared → ℕ → Text
name_of s f = (s.fibers f).comp.name

unfoldable pub context_of : Shared → ℕ → Option ℕ
context_of s f = (s.fibers f).ctx_ptr
