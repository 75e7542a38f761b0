-- ===== src/Steps/Counting.antt =====
-- Numbers are only given out, whatever Apply and the inverses return.
use stc_go.Base.{ℕ, ◌+◌, ◌≤◌, Option, none, some, List, [], ◌∷◌, arith, if_both}
use stc_go.Key.{Error}
use stc_go.Store.{Inverse, Cmd, Task, Shared, send}
use stc_go.Orchestrator.{handle}
use stc_go.Orchestrator.Born.{handle-Works}
use stc_go.Loop.{
  settle, process, take_command, orchestrate, end_apply, finish_apply, end_unwind, finish_unwind,
}
use stc_go.Loop.Ends.{context-Quiet}
use stc_go.Steps.Settling.{settle-Scoped}
use stc_go.Steps.Rounds.{exit-Scoped}

pub seq-finish_apply :
    (s : Shared) (f : ℕ) (i : Option Inverse) (e : Option Error)
    → s.seq ≤ (finish_apply s f i e).seq
unfolding finish_apply end_apply send
seq-finish_apply s f i e = ground arith

module _ (outcome : ℕ → Option Error) where
  seq-process : (s : Shared) (c : Cmd) (rest : List Cmd) → s.seq ≤ (process outcome s c rest).seq
  unfolding process
  seq-process s c rest =
      let taken = record s { orch = record s.orch { inbox = rest; cmds = s.orch.cmds + 1 } } in
      let handled = handle outcome taken c in
      omega (
        arith,
        (handle-Works outcome taken c s.seq).seq,
        (settle-Scoped handled).seq,
        (exit-Scoped (settle handled)).seq,
      )

  seq-take_command : (s : Shared) (q : List Cmd) → s.seq ≤ (take_command outcome s q).seq
  unfolding take_command
  seq-take_command s [] = omega arith
  seq-take_command s (c ∷ rest) = seq-process s c rest

  pub seq-orchestrate : (s : Shared) → s.seq ≤ (orchestrate outcome s).seq
  unfolding orchestrate
  seq-orchestrate s =
      if_both (λ (t : Shared). s.seq ≤ t.seq) s.orch.exited (omega arith)
        (seq-take_command s s.orch.inbox)

  seq-end_unwind :
      (s : Shared) (f : ℕ) (o : Option (Task × List Task)) → s.seq ≤ (end_unwind outcome s f o).seq
  unfolding end_unwind send
  seq-end_unwind s f none = omega arith
  seq-end_unwind s f (some (t, rest)) = ground (arith, (context-Quiet outcome s t).seq)

  pub seq-finish_unwind : (s : Shared) (f : ℕ) → s.seq ≤ (finish_unwind outcome s f).seq
  unfolding finish_unwind
  seq-finish_unwind s f = seq-end_unwind s f _
