-- ===== src/Orchestrator/Frames.antt =====
-- What each step of the orchestrator does to the life of each fiber, to the registry, to the queue
-- and to the goroutines in flight.
use stc_go.Base.{ℕ, ◌+◌, ◌≤◌, ◌<◌, ◌≡◌, Bool, [], ◌∷◌, ◌++◌, arith, ◌==◌, if◌then◌else◌}
use stc_go.Store.{FiberState, Task, apply_task, unwind_task, Shared}
use stc_go.Store
use stc_go.Scope.{child, detach}
use stc_go.Fiber.{set_state, capture_deps}
use stc_go.Orchestrator.{remove_fiber, mount, begin_load, begin_unload}

-- What the transitions of a fiber turn on.
pub record Life : Type 0 where
  pub state : FiberState
  pub disposing : Bool
  pub failing : Bool

abbrev pub life : Shared → ℕ → Life
life s f = record {
  state = (s.fibers f).state;
  disposing = (s.fibers f).dispose_requested;
  failing = (s.fibers f).has_failed;
}

-- The life of fiber `g`, where that of fiber `f` moved on to the state.
abbrev pub moved : Shared → ℕ → FiberState → ℕ → Life
moved s f st g = if f == g then record (life s g) { state = st } else life s g

child-fibers : (s : Shared) (c : ℕ) → (child s c).1.fibers ≡ s.fibers
unfolding child
child-fibers s c = ground arith

-- The fields that a step on the contexts alone leaves as they were.
pub record Same (s t : Shared) : Type 0 where
  pub fibers : t.fibers ≡ s.fibers
  pub registry : t.registry ≡ s.registry
  pub orch : t.orch ≡ s.orch
  pub tasks : t.tasks ≡ s.tasks
  pub pending : t.pending ≡ s.pending
  pub seq : t.seq ≡ s.seq
  pub fiber_wakes : t.fiber_wakes ≡ s.fiber_wakes

pub child-Same : (s : Shared) (c : ℕ) → Same s (child s c).1
unfolding child
child-Same s c = ground arith

detach-Same : (s : Shared) (c : ℕ) → Same s (detach s c)
unfolding detach
detach-Same s c = ground arith

pub mount-life : (s : Shared) (f g : ℕ) → life (mount s f).1 g ≡ life s g
unfolding mount
mount-life s f g = ground (
  arith,
  child-Same s (s.fibers f).home,
  detach-Same (child s (s.fibers f).home).1 (child s (s.fibers f).home).0,
)

-- Everything but the fibers, after a fiber's new context was made.
pub record Mounted (s t : Shared) : Type 0 where
  pub registry : t.registry ≡ s.registry
  pub orch : t.orch ≡ s.orch
  pub tasks : t.tasks ≡ s.tasks
  pub pending : t.pending ≡ s.pending
  pub seq : t.seq ≡ s.seq
  pub fiber_wakes : t.fiber_wakes ≡ s.fiber_wakes

pub mount-Mounted : (s : Shared) (f : ℕ) → Mounted s (mount s f).1
unfolding mount
mount-Mounted s f = ground (
  arith,
  child-Same s (s.fibers f).home,
  detach-Same (child s (s.fibers f).home).1 (child s (s.fibers f).home).0,
)

pub set_state-life :
    (s : Shared) (f : ℕ) (st : FiberState) (g : ℕ) → life (set_state s f st) g ≡ moved s f st g
unfolding set_state
set_state-life s f st g = ground arith

pub begin_load-life : (s : Shared) (f g : ℕ) → life (begin_load s f) g ≡ moved s f Store.loading g
unfolding begin_load capture_deps set_state
begin_load-life s f g = ground (arith, mount-life s f g, mount-life s f f)

pub begin_unload-life :
    (s : Shared) (f g : ℕ) → life (begin_unload s f) g ≡ moved s f Store.unloading g
unfolding begin_unload set_state
begin_unload-life s f g = ground arith

pub remove_fiber-life :
    (s : Shared) (f : ℕ) (st : FiberState) (g : ℕ) → life (remove_fiber s f st) g ≡ moved s f st g
unfolding remove_fiber set_state
remove_fiber-life s f st g = ground arith

-- A step that starts a goroutine, and changes neither the registry nor the queue.
pub record Spawned (s t : Shared) (task : Task) : Type 0 where
  pub registry : t.registry ≡ s.registry
  pub orch : t.orch ≡ s.orch
  pub tasks : t.tasks ≡ s.tasks ++ task ∷ []
  pub pending : t.pending ≡ s.pending + 1
  pub seq : s.seq ≤ t.seq
  pub fiber_wakes : s.fiber_wakes < t.fiber_wakes

pub begin_load-Spawned :
    (s : Shared) (f : ℕ) → Spawned s (begin_load s f) (apply_task f (mount s f).0)
unfolding begin_load capture_deps set_state
begin_load-Spawned s f = ground (arith, mount-Mounted s f)

pub begin_unload-Spawned :
    (s : Shared) (f : ℕ) → Spawned s (begin_unload s f) (unwind_task f (s.fibers f).ctx_ptr)
unfolding begin_unload set_state
begin_unload-Spawned s f = ground arith
