-- ===== src/Loop.antt =====
-- orchestrator.go: the event loop, the end of the goroutines that it starts, and the shutdown; and
-- `Close` of context.go. One call of `orchestrate` is one round of the loop in `run`.
pub mod Calls
pub mod Numbers
pub mod Idle
pub mod Calling
pub mod Ends
pub mod Exit
pub mod Rounds
pub mod Turns
pub mod Queue
use stc_go.Base.{
  ℕ, suc, ◌+◌, ◌-◌, Bool, true, ◌&&◌, Option, none, some, List, [], ◌∷◌, length, take_out,
  if◌then◌else◌, ◌==◌,
}
use stc_go.Key.{Error, not_root}
use stc_go.Trace
use stc_go.Store.{Inverse, Cmd, Task, unwind_task, Shared, trace_user, send}
use stc_go.Store
use stc_go.Unwind.{unwind}
use stc_go.Orchestrator.{handle, settle_with}
use stc_go.Orchestrator.Tokens.{is_apply, is_unwind}

unfoldable pub settled : Shared → Option Shared → Shared
settled s none = s
settled s (some u) = u

-- Each round of `settle` but the last ends the rest of a registered fiber, so that one round more
-- than there are registered fibers is enough.
unfoldable pub settle : Shared → Shared
unfolding settled
settle s = settled s (settle_with (suc (length s.registry)) s)

-- quiescent
unfoldable pub quiescent : Shared → Bool
quiescent s = length s.registry == 0 && s.pending == 0

-- The decision to leave the loop, with `sendMu` held.
unfoldable pub try_exit : Shared → Shared
try_exit s =
    if s.orch.stopping && (s.orch.inflight == 0 && (length s.orch.inbox == 0 && quiescent s))
    then record s { orch = record s.orch { exited = true } }
    else s

module _ (outcome : ℕ → Option Error) where
  unfoldable pub process : Shared → Cmd → List Cmd → Shared
  unfolding settle try_exit quiescent
  process s c rest =
      let taken = record s { orch = record s.orch { inbox = rest; cmds = s.orch.cmds + 1 } } in
      let done = settle (handle outcome taken c) in
      try_exit (record done { orch = record done.orch { inflight = done.orch.inflight - 1 } })

  unfoldable pub take_command : Shared → List Cmd → Shared
  take_command s [] = s
  take_command s (c ∷ rest) = process s c rest

  -- A round of `run`: it waits while the queue is empty, and makes no round after it has left.
  unfoldable pub orchestrate : Shared → Shared
  unfolding take_command process
  orchestrate s = if s.orch.exited then s else take_command s s.orch.inbox

  -- A fiber that is unloading has a context; the source would panic without one.
  unfoldable pub unwind_context : Shared → Task → Shared
  unwind_context s (unwind_task f (some c)) = (unwind outcome s c).1
  unwind_context s _ = s

  unfoldable pub end_unwind : Shared → ℕ → Option (Task × List Task) → Shared
  unfolding unwind_context
  end_unwind s f none = s
  end_unwind s f (some (t, rest)) =
      let u = unwind_context s t in
      (send (record u { pending = u.pending - 1; tasks = rest }) (Store.unwound f)).1

  -- The goroutine of `beginUnload` runs to its end.
  unfoldable pub finish_unwind : Shared → ℕ → Shared
  unfolding end_unwind
  finish_unwind s f = end_unwind s f (take_out (is_unwind f) s.tasks)

-- The goroutine of `beginLoad` before it calls `Apply`.
unfoldable pub start_apply : Shared → ℕ → Shared
start_apply s f = trace_user s Trace.apply_start f

unfoldable pub end_apply :
    Shared → ℕ → Option Inverse → Option Error → Option (Task × List Task) → Shared
end_apply s f i e none = s
end_apply s f i e (some (t, rest)) =
    (send (record s { pending = s.pending - 1; tasks = rest }) (Store.applied f i e)).1

-- The goroutine of `beginLoad` after `Apply` has returned the inverse and the error.
unfoldable pub finish_apply : Shared → ℕ → Option Inverse → Option Error → Shared
unfolding end_apply
finish_apply s f i e = end_apply s f i e (take_out (is_apply f) s.tasks)

-- The part of `shutdown` before it waits for the loop to leave.
unfoldable pub begin_shutdown : Shared → Shared
begin_shutdown s = (send (record s { orch = record s.orch { stopping = true } }) Store.service).1

unfoldable pub close_with : (ℕ → Option Error) → Option ℕ → Shared → ℕ → Option Error × Shared
close_with outcome none s c = unwind outcome s c
close_with outcome (some p) s c = (some not_root, s)

-- Close, once `shutdown` has returned: `begin_shutdown` and the rounds of the loop come before.
unfoldable pub close : (ℕ → Option Error) → Shared → ℕ → Option Error × Shared
unfolding close_with
close outcome s c = close_with outcome (s.contexts c).parent s c
