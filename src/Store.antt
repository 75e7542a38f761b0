-- ===== src/Store.antt =====
-- The mutable objects of context.go, fiber.go and orchestrator.go: the tree of contexts and the
-- fibers on an explicit heap, the state that the whole tree shares, and the broadcast, trace and
-- notification calls that every operation makes.
pub mod Maps
use stc_go.Base.{
  ℕ, ◌+◌, ◌≡◌, Bool, true, false, Option, none, some, List, [], ◌∷◌, ◌++◌, ◌==◌, if◌then◌else◌,
  ℕ_discrete,
}
use stc_go.Base.Assoc.{Assoc, lookup}
use stc_go.Key.{Text, Text-discrete, Key, Key-discrete, Any, Realm, Error}
use stc_go.Trace.{TraceKind, TraceEvent, push_event}

-- A realm is compared by its identity.
pub record ProvKey : Type 0 where
  pub realm : ℕ
  pub key : Key

unfoldable pub ProvKey-discrete : Discrete ProvKey
unfolding Key-discrete ℕ_discrete
ProvKey-discrete = hlevel (ℕ_discrete, Key-discrete)

-- `owner` is the address of the context that provides.
pub record ProvideIdent : Type 0 where
  pub owner : ℕ
  pub seq : ℕ

unfoldable pub ProvideIdent-discrete : Discrete ProvideIdent
unfolding ℕ_discrete
ProvideIdent-discrete = hlevel ℕ_discrete

pub record ProvideEntry : Type 0 where
  pub ident : ProvideIdent
  pub open ident use *
  pub value : Any

-- `same`: owner and sequence number agree.
unfoldable pub same : (a b : ProvideEntry) → Dec (a.ident ≡ b.ident)
unfolding ProvideIdent-discrete
same a b = ProvideIdent-discrete a.ident b.ident

-- `fn` names the listener's function.
pub record ListenerEntry : Type 0 where
  pub id : ℕ
  pub owner : ℕ
  pub fn : ℕ

pub record InterceptEntry : Type 0 where
  pub id : ℕ
  pub meta : Any

-- The closures that the package itself registers, each with what it captures, and the inverses
-- that a caller hands in, told apart by a number.
pub data Inverse : Type 0 where
  unprovide : ProvKey → ProvideEntry → Inverse
  unisolate : ℕ → Key → Inverse
  unintercept : ℕ → Key → ℕ → Inverse
  unlisten : Text → ℕ → Inverse
  user : ℕ → Inverse

pub record Context : Type 0 where
  pub parent : Option ℕ
  pub fiber : Option ℕ
  pub values : Assoc Key Any
  pub realm_for : Assoc Key Realm
  pub interc : Assoc Key (List InterceptEntry)
  pub inverses : List Inverse
  pub children : List ℕ
  pub unwinding : Bool
  pub closed : Bool

pub data FiberState : Type 0 where
  pending loading active unloading failed gone : FiberState

-- `apply` names the function; `none` is a nil function.
pub record Component : Type 0 where
  pub name : Text
  pub inject : List Key
  pub provide : List Key
  pub apply : Option ℕ

pub record Fiber : Type 0 where
  pub comp : Component
  pub home : ℕ
  pub ctx_ptr : Option ℕ
  pub state : FiberState
  pub err : Option Error
  pub dispose_requested : Bool
  pub has_failed : Bool
  pub dep_snap : Assoc Key ProvideIdent

pub data Cmd : Type 0 where
  load dispose unwound : ℕ → Cmd
  applied : ℕ → Option Inverse → Option Error → Cmd
  service : Cmd

-- A goroutine that the orchestrator has started: an apply or an unwind, with its fiber and the
-- context that it was given.
pub data Task : Type 0 where
  apply_task : ℕ → ℕ → Task
  unwind_task : ℕ → Option ℕ → Task

pub record Orchestrator : Type 0 where
  pub inbox : List Cmd
  pub exited : Bool
  pub cmds : ℕ
  pub inflight : ℕ
  pub stopping : Bool

-- What the code under test did to the world outside: a caller's functions that ran.
pub data Deed : Type 0 where
  installed undone : ℕ → Deed
  called : ℕ → List Any → Deed

-- A fiber's address is its identifier. `svc_wakes` and `fiber_wakes` count how often the two
-- broadcast channels were closed and replaced; `pending` is the atomic counter of that name, and
-- `tasks` the goroutines that it counts.
pub record Shared : Type 0 where
  pub seq : ℕ
  pub contexts : ℕ → Context
  pub next_context : ℕ
  pub fibers : ℕ → Fiber
  pub provides : Assoc ProvKey (List ProvideEntry)
  pub listeners : Assoc Text (List ListenerEntry)
  pub trace : List TraceEvent
  pub registry : List ℕ
  pub svc_wakes : ℕ
  pub fiber_wakes : ℕ
  pub orch : Orchestrator
  pub pending : ℕ
  pub tasks : List Task
  pub deeds : List Deed

-- The heap with the object at one address replaced.
abbrev pub update {ℓ} : {A : Type ℓ} → (ℕ → A) → ℕ → A → ℕ → A
update f p v q = if p == q then v else f q

abbrev pub set_context : Shared → ℕ → Context → Shared
set_context s c x = record s { contexts = update s.contexts c x }

abbrev pub set_fiber : Shared → ℕ → Fiber → Shared
set_fiber s f x = record s { fibers = update s.fibers f x }

-- A fresh object, as `&Context{sh: c.sh, parent: c}` makes it.
abbrev pub blank : Option ℕ → Context
blank parent = record {
  parent = parent;
  fiber = none;
  values = [];
  realm_for = [];
  interc = [];
  inverses = [];
  children = [];
  unwinding = false;
  closed = false;
}

abbrev pub new_fiber : Component → ℕ → Fiber
new_fiber comp home = record {
  comp = comp;
  home = home;
  ctx_ptr = none;
  state = pending;
  err = none;
  dispose_requested = false;
  has_failed = false;
  dep_snap = [];
}

abbrev no_list {ℓ} : {A : Type ℓ} → Option (List A) → List A
no_list none = []
no_list (some l) = l

-- `sh.provides[pk]`, `sh.listeners[name]` and `c.interc[key]`: nil where the key is missing.
unfoldable pub entries : Assoc ProvKey (List ProvideEntry) → ProvKey → List ProvideEntry
unfolding ProvKey-discrete
entries m pk = no_list (lookup ProvKey-discrete pk m)

unfoldable pub listeners_of : Assoc Text (List ListenerEntry) → Text → List ListenerEntry
unfolding Text-discrete
listeners_of m name = no_list (lookup Text-discrete name m)

unfoldable pub intercepts_of : Assoc Key (List InterceptEntry) → Key → List InterceptEntry
unfolding Key-discrete
intercepts_of m key = no_list (lookup Key-discrete key m)

-- traceLocked
unfoldable pub trace_locked : Shared → TraceKind → ℕ → Text → Shared
trace_locked s kind f key = record s {
  seq = s.seq + 1;
  trace = push_event s.trace (record { seq = s.seq + 1; kind = kind; fiber = f; key = key });
}

unfoldable pub trace_user : Shared → TraceKind → ℕ → Shared
unfolding trace_locked
trace_user s kind f = trace_locked s kind f []

unfoldable pub wake_service_watchers : Shared → Shared
wake_service_watchers s = record s { svc_wakes = s.svc_wakes + 1 }

unfoldable pub broadcast : Shared → Shared
broadcast s = record s { fiber_wakes = s.fiber_wakes + 1 }

-- `send` answers whether the command was queued. A full channel makes the caller wait; the queue
-- here has no bound.
unfoldable pub send : Shared → Cmd → Bool × Shared
send s c = if s.orch.exited then (false, s) else (
  true,
  record s {
    orch = record s.orch { inflight = s.orch.inflight + 1; inbox = s.orch.inbox ++ c ∷ [] };
  },
)

unfoldable pub notify_orch : Shared → Shared
unfolding send
notify_orch s = (send s service).1

abbrev fiber_number : Option ℕ → ℕ
fiber_number none = 0
fiber_number (some f) = f

-- The fiber that owns a context, 0 for none.
unfoldable pub fiber_id : Shared → ℕ → ℕ
fiber_id s c = fiber_number (s.contexts c).fiber

-- Where `registrations are refused`: a context that is closed or being unwound.
unfoldable pub is_inactive : Shared → ℕ → Bool
is_inactive s c = if (s.contexts c).closed then true else (s.contexts c).unwinding

-- The state after `New`: the root context at address 0, an orchestrator that waits.
unfoldable pub new : Shared
new = record {
  seq = 0;
  contexts = λ _. blank none;
  next_context = 1;
  fibers = λ _. new_fiber (record { name = []; inject = []; provide = []; apply = none }) 0;
  provides = [];
  listeners = [];
  trace = [];
  registry = [];
  svc_wakes = 0;
  fiber_wakes = 0;
  orch = record { inbox = []; exited = false; cmds = 0; inflight = 0; stopping = false };
  pending = 0;
  tasks = [];
  deeds = [];
}

-- Trace of a context: a copy of the events.
unfoldable pub trace_of : Shared → List TraceEvent
trace_of s = s.trace
