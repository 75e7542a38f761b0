-- ===== src/Examples/Runs.antt =====
-- Runs of a whole application.
use stc_go.Base.{
  inl, All, ◌≤◌, ℕ, ◌<◌, ◌≡◌, ◌≢◌, refl, true, false, Option, none, some, [], ◌∷◌, arith, List,
  Bool, ◌++◌,
}
use stc_go.Base.Assoc.{lookup}
use stc_go.Key.{Key, assignable, Reflect, Error}
use stc_go.Key
use stc_go.Base.Sort.{sort}
use stc_go.Store
use stc_go.Store.{
  unprovide, Cmd, Inverse, Component, ProvKey, Shared, new, send, trace_user, is_inactive, entries,
  listeners_of,
}
use stc_go.Orchestrator.{settle_fiber, begin_load, mount, handle, settle_with, settle_round}
use stc_go.Fiber.{load, ready_now, deps_satisfied, set_state, capture_deps}
use stc_go.Fiber.Waiting.{ready_wait, look, blocked, looked, wait_turn}
use stc_go.Steps.Waiting.{Waits, enter, turn, Waits-look}
use stc_go.Loop.{
  orchestrate, begin_shutdown, start_apply, finish_apply, settle, settled, quiescent, try_exit,
}
use stc_go.Loop.Queue.{rounds, rounds-reach}
use stc_go.Orchestrator.Invariant.{IsSound}
use stc_go.Services
use stc_go.Key.{wrong_type}
use stc_go.Steps.Typed.{Reach-service}
use stc_go.Services.{err, provide, add_provide, foreign_provider}
use stc_go.Services.Entries.{new_entry}
use stc_go.Services.WellFormed.{IsWellFormed}
use stc_go.Unwind.{unwind, release, unwind_with, begin_unwind, unwind_all, run_inverses}
use stc_go.Unwind.Descent.{Below, itself, under}
use stc_go.Scope.{chain, ancestors, child, detach}
use stc_go.Scope.Ancestry.{IsRooted}
use stc_go.Orchestrator.Frames.{life}
use stc_go.Orchestrator.Tokens.{is_terminal}
use stc_go.Steps.Lives.{Run-final}
use stc_go.Hooks.{on}
use stc_go.Trace.Numbers.{IsLog}
use stc_go.Steps.Standing.{Reach-stands, Reach-IsLog}
use stc_go.Steps.Descent.{Reach-Below, Reach-ancestors}
use stc_go.Unwind.Spared.{unw, survivors, spared}
use stc_go.Steps.Tidy.{Reach-IsWellFormed, Reach-unwind}
use stc_go.Steps.{
  Reach, begin, step, go, stop, child_step, release_step, on_step, provide_step, load_step,
  orchestrate_step, shutdown_step, is_callers, start_apply_step, finish_apply_step,
}
use stc_go.Steps.Sound.{IsEmpty, Reach-IsSound, Reach-IsEmpty}

-- Strings have the type 0.
abbrev strings : Reflect
strings = record { type_of = λ v. some 0; assignable_to = λ a b. true; asserts = λ t v. true }

abbrev calm : ℕ → Option Error
calm n = none

-- Apply may return anything.
abbrev anything : Option Inverse → Bool
anything i = true

abbrev plugin : Component
plugin = record { name = 112 ∷ []; inject = []; provide = []; apply = some 1 }

-- One component was loaded, and the event loop has made a round.
abbrev after_round : Shared
after_round = orchestrate calm (load new 0 plugin).1

after_round_reached : Reach strings calm anything after_round
unfolding new
after_round_reached = step (step begin (load_step 0 plugin (omega arith))) orchestrate_step

-- Apply provides a service on its own context, and returns the inverse of it.
abbrev service : Key
service = record { name = 115 ∷ []; typ = none }

abbrev service_key : ProvKey
service_key = record { realm = 1; key = service }

abbrev applying : Shared
applying = start_apply after_round 1

applying_two : applying.next_context ≡ 2
unfolding orchestrate new load send is_inactive start_apply trace_user handle settle settle_with
    settle_round sort try_exit quiescent settled settle_fiber deps_satisfied begin_load set_state
    capture_deps mount detach child
applying_two = refl

applying_reached : Reach strings calm anything applying
applying_reached = step after_round_reached (start_apply_step 1)

-- The inverse comes back with Apply, and the loop handles it.
abbrev after_apply : Shared
after_apply = orchestrate calm (
    finish_apply (provide strings applying 1 service Key.nil).1 1
      (some (unprovide service_key (new_entry applying 1 Key.nil))) none)

after_apply_reached : Reach strings calm anything after_apply
after_apply_reached =
    step
      (step (step applying_reached (provide_step 1 service Key.nil (omega (arith, applying_two)))) (
        finish_apply_step 1 (some (unprovide service_key (new_entry applying 1 Key.nil))) none
          refl))
      orchestrate_step

Reach-IsSound_example : IsSound after_apply
Reach-IsSound_example = Reach-IsSound strings calm anything after_apply after_apply_reached

-- A shutdown with nothing loaded.
abbrev after_exit : Shared
after_exit = orchestrate calm (begin_shutdown new)

after_exit_reached : Reach strings calm anything after_exit
after_exit_reached = step (step begin shutdown_step) orchestrate_step

after_exit_left : after_exit.orch.exited ≡ true
unfolding orchestrate begin_shutdown new send settle_with settle_round sort handle
after_exit_left = refl

Reach-IsEmpty_example : IsEmpty after_exit × (after_exit.tasks ≡ [])
Reach-IsEmpty_example =
    Reach-IsEmpty strings calm anything after_exit after_exit_reached after_exit_left

-- The root provides a service.
abbrev provided : Shared
provided = (provide strings new 0 service Key.nil).1

provided_reached : Reach strings calm is_callers provided
unfolding new
provided_reached = step begin (provide_step 0 service Key.nil (omega arith))

provided_root : 0 < provided.next_context
unfolding new provide assignable foreign_provider entries lookup add_provide is_inactive
provided_root = omega arith

-- A component is loaded beside it, and the event loop makes a round.
abbrev serving : Shared
serving = orchestrate calm (load provided 0 plugin).1

Reach-IsWellFormed_example : IsWellFormed serving
Reach-IsWellFormed_example =
    Reach-IsWellFormed strings calm serving
      (step (step provided_reached (load_step 0 plugin provided_root)) orchestrate_step)

Reach-unwind_example :
    (unw (unwind calm provided 0).1 0 ≡ true)
    × (entries (unwind calm provided 0).1.provides service_key
        ≡ survivors
            (spared provided (unwind calm provided 0).1)
            (entries provided.provides service_key))
Reach-unwind_example =
    Reach-unwind strings calm provided 0 service_key provided_reached provided_root

-- A caller waits in Ready for a fiber that was just loaded.
abbrev loaded : Shared
loaded = (load new 0 plugin).1

loaded-Waits : Waits strings calm anything ready_wait 1 loaded (blocked 0)
unfolding new load send is_inactive wait_turn looked ready_now
loaded-Waits =
    turn false (turn false (enter (step begin (load_step 0 plugin (omega arith))) (omega arith)))

loaded_wakes : loaded.fiber_wakes ≡ 0
unfolding new load send is_inactive
loaded_wakes = refl

Waits-look_example : look ready_wait (loaded.fibers 1) ≡ none
Waits-look_example =
    Waits-look strings calm anything ready_wait 1 0 loaded loaded-Waits loaded_wakes

Reach-service_example :
    Services.service strings 0 provided 0 service ≢ err (wrong_type service.name)
Reach-service_example =
    Reach-service strings calm provided 0 service 0 (λ v e. refl) provided_reached

-- The root was released, and refuses a component.
abbrev released : Shared
released = (release calm new 0).1

abbrev refusing : Shared
refusing = (load released 0 plugin).1

refusing_reached : Reach strings calm anything refusing
unfolding release unwind new unwind_with begin_unwind detach unwind_all run_inverses
refusing_reached =
    step (step begin (release_step 0 (omega arith))) (load_step 0 plugin (omega arith))

refusing_numbered : 1 ≤ refusing.seq
unfolding load release unwind new unwind_with begin_unwind detach unwind_all run_inverses
    is_inactive
refusing_numbered = omega arith

refused_failed : is_terminal (life refusing 1).state ≡ true
unfolding load release unwind new unwind_with begin_unwind detach unwind_all run_inverses
    is_inactive
refused_failed = refl

Run-final_example : life (orchestrate calm refusing) 1 ≡ life refusing 1
Run-final_example =
    Run-final strings calm anything refusing (orchestrate calm refusing) 1 refusing_reached
      (go stop orchestrate_step) refusing_numbered refused_failed

-- A child of the root provides a service.
abbrev parted : Shared
parted = (provide strings (child new 0).1 1 service Key.nil).1

parted_reached : Reach strings calm is_callers parted
unfolding new child is_inactive
parted_reached =
    step (step begin (child_step 0 (omega arith))) (provide_step 1 service Key.nil (omega arith))

parted_root : 0 < parted.next_context
unfolding new child provide assignable foreign_provider entries lookup add_provide is_inactive
parted_root = omega arith

parted_child : Below parted 0 1
unfolding new child provide assignable foreign_provider entries lookup add_provide is_inactive
parted_child = under itself (inl refl)

Reach-Below_example :
    (unw (release calm parted 0).1 1 ≡ true)
    × All (λ e. e.owner ≢ 1) (entries (release calm parted 0).1.provides service_key)
    × All (λ l. l.owner ≢ 1) (listeners_of (release calm parted 0).1.listeners [])
Reach-Below_example =
    Reach-Below strings calm parted 0 1 service_key [] parted_reached parted_root parted_child

-- The root listens, after a child of it was released and another one made.
abbrev listening : Shared
listening = (on (child (release calm (child new 0).1 1).1 0).1 0 [] 7).1

listening_reached : Reach strings calm is_callers listening
unfolding new child release unwind unwind_with begin_unwind detach unwind_all run_inverses
listening_reached =
    step
      (step (step (step begin (child_step 0 (omega arith))) (release_step 1 (omega arith)))
        (child_step 0 (omega arith)))
      (on_step 0 [] 7 (omega arith))

Reach-stands_example :
    All (λ e. unw listening e.owner ≡ false) (entries listening.provides service_key)
    × All (λ l. unw listening l.owner ≡ false) (listeners_of listening.listeners [])
Reach-stands_example = Reach-stands strings calm listening service_key [] listening_reached

-- Two fibers were loaded, and their commands are in the inbox.
abbrev two_loaded : Shared
two_loaded = (load loaded 0 plugin).1

two_loaded-inbox : two_loaded.orch.inbox ≡ (Store.load 1 ∷ []) ++ Store.load 2 ∷ []
unfolding new load send is_inactive
two_loaded-inbox = refl

two_loaded_runs : two_loaded.orch.exited ≡ false
unfolding new load send is_inactive
two_loaded_runs = refl

rounds-reach_example :
    (zs : List Cmd) × ((rounds calm 1 two_loaded).orch.inbox ≡ Store.load 2 ∷ zs)
    × ((rounds calm 1 two_loaded).orch.exited ≡ false)
rounds-reach_example =
    rounds-reach calm two_loaded (Store.load 2) (Store.load 1 ∷ []) [] two_loaded_runs
      two_loaded-inbox

Reach-IsLog_example : IsLog serving.seq serving.trace
Reach-IsLog_example =
    Reach-IsLog strings calm serving
      (step (step provided_reached (load_step 0 plugin provided_root)) orchestrate_step)

Reach-ancestors_example :
    (chain 5 parted.contexts 1 ≡ ancestors parted 1) × IsRooted parted.contexts (ancestors parted 1)
Reach-ancestors_example = Reach-ancestors strings calm parted 5 1 parted_reached (omega arith)
