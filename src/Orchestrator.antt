-- ===== src/Orchestrator.antt =====
-- orchestrator.go: the single decision maker of the fibers' life cycle.
pub mod Frames
pub mod Tokens
pub mod Quiet
pub mod Invariant
pub mod Settle
pub mod Work
pub mod Progress
pub mod Flags
pub mod Moves
pub mod Cycle
pub mod Turns
pub mod Numbers
pub mod Born
use stc_go.Base.{
  ℕ, zero, suc, ◌+◌, Bool, true, false, ◌&&◌, not, Option, none, some, List, [], ◌∷◌, ◌++◌,
  if◌then◌else◌,
}
use stc_go.Base.Sort.{sort, add_key, delete_key}
use stc_go.Key.{Error}
use stc_go.Trace
use stc_go.Store.{
  Inverse, FiberState, Cmd, Task, apply_task, unwind_task, Shared, set_context, set_fiber,
  trace_user,
}
use stc_go.Store
use stc_go.Scope.{child, detach}
use stc_go.Unwind.{run_inverse}
use stc_go.Fiber.{set_state, deps_satisfied, capture_deps, dep_stale}

-- removeFiber
unfoldable pub remove_fiber : Shared → ℕ → FiberState → Shared
unfolding delete_key
remove_fiber s f terminal = set_state (record s { registry = delete_key f s.registry }) f terminal

-- `go func() { … }()`, counted in `pending`.
unfoldable pub spawn : Shared → Task → Shared
spawn s t = record s { pending = s.pending + 1; tasks = s.tasks ++ t ∷ [] }

-- The fresh context of one load cycle: a child of the fiber's home that leaves the home's list,
-- owned by the fiber.
unfoldable pub mount : Shared → ℕ → ℕ × Shared
mount s f =
    let (c, s') = child s (s.fibers f).home in
    let d = detach s' c in
    (
      c,
      set_fiber (set_context d c (record (d.contexts c) { fiber = some f })) f
          (record (d.fibers f) { ctx_ptr = some c }),
    )

-- beginLoad
unfoldable pub begin_load : Shared → ℕ → Shared
unfolding spawn
begin_load s f =
    let (c, s') = mount s f in
    spawn (set_state (capture_deps s' f) f Store.loading) (apply_task f c)

-- beginUnload
unfoldable pub begin_unload : Shared → ℕ → Shared
unfolding spawn
begin_unload s f = spawn (set_state s f Store.unloading) (unwind_task f (s.fibers f).ctx_ptr)

abbrev pub request_dispose : Shared → ℕ → Shared
request_dispose s f = set_fiber s f (record (s.fibers f) { dispose_requested = true })

unfoldable pub dispose_in : FiberState → Shared → ℕ → Shared
dispose_in Store.pending s f = remove_fiber s f Store.gone
dispose_in Store.loading s f = request_dispose s f
dispose_in Store.unloading s f = request_dispose s f
dispose_in Store.active s f = begin_unload (request_dispose s f) f
dispose_in Store.gone s f = s
dispose_in Store.failed s f = s

-- Where a load that ended without an error leads.
unfoldable pub loaded : Shared → ℕ → Shared
loaded s f =
    if (s.fibers f).dispose_requested
    then begin_unload s f
    else if s.orch.stopping
    then begin_unload s f
    else if deps_satisfied s f
    then set_state (capture_deps s f) f Store.active
    else begin_unload s f

unfoldable pub apply_result : Shared → ℕ → Option Error → Shared
unfolding loaded
apply_result s f none = loaded s f
apply_result s f (some e) =
    begin_unload (set_fiber s f (record (s.fibers f) { err = some e; has_failed = true })) f

unfoldable pub unwound_result : Shared → ℕ → Shared
unwound_result s f =
    if (s.fibers f).has_failed
    then remove_fiber s f Store.failed
    else if (s.fibers f).dispose_requested
    then remove_fiber s f Store.gone
    else if s.orch.stopping
    then remove_fiber s f Store.gone
    else if deps_satisfied s f
    then begin_load s f
    else set_state s f Store.pending

module _ (outcome : ℕ → Option Error) where
  -- The inverse that `Apply` returned joins its context, or runs at once if that is unwinding.
  -- A fiber that is loading has a context; the source would panic without one.
  unfoldable pub adopt : Shared → Option ℕ → Option Inverse → Shared
  adopt s c none = s
  adopt s none (some i) = s
  adopt s (some c) (some i) =
      let x = s.contexts c in
      if x.unwinding
      then (run_inverse outcome s i).1
      else set_context s c (record x { inverses = x.inverses ++ i ∷ [] })

  -- handle
  unfoldable pub handle : Shared → Cmd → Shared
  unfolding dispose_in adopt apply_result unwound_result add_key
  handle s (Store.load f) = record s { registry = add_key f s.registry }
  handle s (Store.dispose f) = dispose_in (s.fibers f).state s f
  handle s (Store.applied f inv e) =
      let t = trace_user s Trace.applied f in apply_result (adopt t (t.fibers f).ctx_ptr inv) f e
  handle s (Store.unwound f) = unwound_result (trace_user s Trace.unwound f) f
  handle s Store.service = s

-- One fiber of a round of `settle`; `stopping` was read at the start of the round.
unfoldable pub settle_in : FiberState → Bool → Shared → ℕ → Bool × Shared
settle_in Store.pending stopping s f =
    if stopping && not (s.fibers f).dispose_requested
    then (true, remove_fiber (request_dispose s f) f Store.gone)
    else if not stopping && deps_satisfied s f
    then (true, begin_load s f)
    else (false, s)
settle_in Store.active stopping s f =
    if stopping && not (s.fibers f).dispose_requested
    then (true, begin_unload (request_dispose s f) f)
    else if not stopping && (if deps_satisfied s f then dep_stale s f else true)
    then (true, begin_unload s f)
    else (false, s)
settle_in Store.loading stopping s f = (false, if stopping then request_dispose s f else s)
settle_in Store.unloading stopping s f = (false, if stopping then request_dispose s f else s)
settle_in Store.failed stopping s f = (false, s)
settle_in Store.gone stopping s f = (false, s)

unfoldable pub settle_fiber : Bool → Shared → ℕ → Bool × Shared
unfolding settle_in
settle_fiber stopping s f = settle_in (s.fibers f).state stopping s f

-- The loop over the snapshot of the registry, with `changed`.
unfoldable pub settle_round : Bool → Shared → List ℕ → Bool → Bool × Shared
settle_round stopping s [] changed = (changed, s)
settle_round stopping s (f ∷ fs) changed =
    let (c, s') = settle_fiber stopping s f in
    settle_round stopping s' fs (if c then true else changed)

-- settle: rounds until one changes nothing; `none` means that the fuel ran out.
unfoldable pub settle_with : ℕ → Shared → Option Shared
settle_with zero s = none
settle_with (suc fuel) s =
    let (changed, s') = settle_round s.orch.stopping s (sort s.registry) false in
    elim changed [ true ↦ settle_with fuel s' | false ↦ some s' ]
