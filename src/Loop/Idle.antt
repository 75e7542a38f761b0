-- ===== src/Loop/Idle.antt =====
-- The ends of the goroutines do not reopen the event loop, and are nothing where none is in flight.
use stc_go.Base.{
  ℕ, ◌≡◌, refl, ap, Bool, true, false, Option, none, some, List, [], arith, take_out, if◌then◌else◌,
}
use stc_go.Key.{Error}
use stc_go.Store.{Inverse, Task, Shared, send}
use stc_go.Orchestrator.Tokens.{is_apply, is_unwind}
use stc_go.Orchestrator.Quiet.{Quiet, Quiet-refl, trace_user-Quiet}
use stc_go.Unwind.Silence.{unwind-Quiet}
use stc_go.Trace
use stc_go.Loop.{
  orchestrate, take_command, start_apply, end_apply, finish_apply, end_unwind, finish_unwind,
  close_with, close,
}
use stc_go.Loop.Ends.{context-Quiet}

none_left : (p : Task → Bool) (ts : List Task) → ts ≡ [] → take_out p ts ≡ none
unfolding take_out
none_left p ts e = rw (e, take_out) refl

end_apply-exited :
    (s : Shared) (f : ℕ) (i : Option Inverse) (x : Option Error) (o : Option (Task × List Task))
    → s.orch.exited ≡ false
    → (end_apply s f i x o).orch.exited ≡ false
unfolding end_apply send
end_apply-exited s f i x o n = ground arith

pub finish_apply-exited :
    (s : Shared) (f : ℕ) (i : Option Inverse) (x : Option Error)
    → s.orch.exited ≡ false
    → (finish_apply s f i x).orch.exited ≡ false
unfolding finish_apply
finish_apply-exited s f i x n = end_apply-exited s f i x (take_out (is_apply f) s.tasks) n

pub finish_apply-nil :
    (s : Shared) (f : ℕ) (i : Option Inverse) (x : Option Error)
    → s.tasks ≡ []
    → finish_apply s f i x ≡ s
unfolding finish_apply end_apply
finish_apply-nil s f i x e = ap (end_apply s f i x) (none_left (is_apply f) s.tasks e)

module _ (outcome : ℕ → Option Error) where
  end_unwind-exited :
      (s : Shared) (f : ℕ) (o : Option (Task × List Task))
      → s.orch.exited ≡ false
      → (end_unwind outcome s f o).orch.exited ≡ false
  unfolding end_unwind send
  end_unwind-exited s f none n = n
  end_unwind-exited s f (some (t, rest)) n = ground (arith, context-Quiet outcome s t)

  pub finish_unwind-exited :
      (s : Shared) (f : ℕ) → s.orch.exited ≡ false → (finish_unwind outcome s f).orch.exited ≡ false
  unfolding finish_unwind
  finish_unwind-exited s f n = end_unwind-exited s f (take_out (is_unwind f) s.tasks) n

  pub finish_unwind-nil : (s : Shared) (f : ℕ) → s.tasks ≡ [] → finish_unwind outcome s f ≡ s
  unfolding finish_unwind end_unwind
  finish_unwind-nil s f e = ap (end_unwind outcome s f) (none_left (is_unwind f) s.tasks e)

  close_with-Quiet : (p : Option ℕ) (s : Shared) (c : ℕ) → Quiet s (close_with outcome p s c).1
  unfolding close_with
  close_with-Quiet none s c = unwind-Quiet outcome s c
  close_with-Quiet (some p) s c = Quiet-refl s

  pub close-Quiet : (s : Shared) (c : ℕ) → Quiet s (close outcome s c).1
  unfolding close
  close-Quiet s c = close_with-Quiet (s.contexts c).parent s c

pub start_apply-Quiet : (s : Shared) (f : ℕ) → Quiet s (start_apply s f)
unfolding start_apply
start_apply-Quiet s f = trace_user-Quiet s Trace.apply_start f

-- A loop that has left makes no round.
pub orchestrate-left :
    (outcome : ℕ → Option Error) (s : Shared) → s.orch.exited ≡ true → orchestrate outcome s ≡ s
unfolding orchestrate
orchestrate-left outcome s e =
    ap (λ (b : Bool). if b then s else take_command outcome s s.orch.inbox) e
