-- ===== src/Steps.antt =====
-- An application over the library: the operations of its contexts, the rounds of the event loop and
-- the goroutines of its fibers, in any order. A context is named once it was made, and a fiber once
-- its number was given out.
pub mod Silence
pub mod Sound
pub mod Trees
pub mod Scoped
pub mod Keeping
pub mod Contexts
pub mod Settling
pub mod Rounds
pub mod Counting
pub mod Tidy
pub mod Waiting
pub mod Typed
pub mod Lives
pub mod Descent
pub mod Heard
pub mod Listening
pub mod Provided
pub mod Standing
use stc_go.Base.{ℕ, ◌<◌, ◌≤◌, ◌≡◌, Bool, true, false, Option, none, some, List}
use stc_go.Key.{Text, Key, Any, Realm, Reflect, Error}
use stc_go.Store.{ProvKey, ProvideEntry, Inverse, unprovide, user, Component, Shared, new}
use stc_go.Scope.{child, set, isolate, intercept}
use stc_go.Services.{provide}
use stc_go.Hooks.{on, emit}
use stc_go.Unwind.{Install, run_inverse, effect, release}
use stc_go.Fiber.{load, dispose}
use stc_go.Loop.{orchestrate, start_apply, finish_apply, finish_unwind, begin_shutdown, close}

-- Nothing, or a function of the caller's: not the inverse that Provide has returned.
abbrev pub is_callers : Option Inverse → Bool
is_callers none = true
is_callers (some (user n)) = true
is_callers (some _) = false

-- `returns` tells what Apply may return as its inverse: anything, or only what `is_callers` admits.
module _ (r : Reflect) (outcome : ℕ → Option Error) (returns : Option Inverse → Bool) where
  pub data Step (s : Shared) : Shared → Type 0 where
    child_step : (c : ℕ) → c < s.next_context → Step s (child s c).1
    set_step : (c : ℕ) (k : Key) (v : Any) → c < s.next_context → Step s (set r s c k v).1
    isolate_step :
        (c : ℕ) (k : Key) (x : Option Realm) → c < s.next_context → Step s (isolate s c k x).1
    intercept_step : (c : ℕ) (k : Key) (v : Any) → c < s.next_context → Step s (intercept s c k v).1
    on_step : (c : ℕ) (name : Text) (fn : ℕ) → c < s.next_context → Step s (on s c name fn).1
    emit_step : (name : Text) (args : List Any) → Step s (emit s name args)
    provide_step : (c : ℕ) (k : Key) (v : Any) → c < s.next_context → Step s (provide r s c k v).1
    -- A call of the inverse that Provide has returned.
    withdraw_step :
        (pk : ProvKey) (e : ProvideEntry) → Step s (run_inverse outcome s (unprovide pk e)).1
    effect_step :
        (c : ℕ) (i : Option Install) → c < s.next_context → Step s (effect outcome s c i).1
    release_step : (c : ℕ) → c < s.next_context → Step s (release outcome s c).1
    load_step : (c : ℕ) (comp : Component) → c < s.next_context → Step s (load s c comp).1
    dispose_step : (f : ℕ) → f ≤ s.seq → Step s (dispose s f)
    orchestrate_step : Step s (orchestrate outcome s)
    start_apply_step : (f : ℕ) → Step s (start_apply s f)
    -- Apply has returned, with the inverse and the error.
    finish_apply_step :
        (f : ℕ) (i : Option Inverse) (e : Option Error)
        → returns i ≡ true
        → Step s (finish_apply s f i e)
    finish_unwind_step : (f : ℕ) → Step s (finish_unwind outcome s f)
    shutdown_step : Step s (begin_shutdown s)
    close_step : (c : ℕ) → c < s.next_context → Step s (close outcome s c).1

  -- The states that an application can come to from New.
  pub data Reach : Shared → Type 0 where
    begin : Reach new
    step : {s t : Shared} → Reach s → Step s t → Reach t

  -- The states that it can come to from a state on.
  pub data Run (s : Shared) : Shared → Type 0 where
    stop : Run s s
    go : {t u : Shared} → Run s t → Step t u → Run s u
