-- ===== src/Steps/Rounds.antt =====
-- The event loop, the goroutines and the calls about fibers keep a recoverable application recoverable.
use stc_go.Base.{
  ℕ, ◌<◌, ◌+◌, ◌-◌, ◌≡◌, refl, subst, Bool, true, Option, none, some, List, [], ◌∷◌, arith, All,
  All-append, if_both,
}
use stc_go.Key.{Error}
use stc_go.Trace
use stc_go.Store.{Inverse, Cmd, Task, apply_task, unwind_task, Component, Shared, send, is_inactive}
use stc_go.Store
use stc_go.Unwind.{unwind}
use stc_go.Unwind.Hush.{IsReady, unwind-Hushed}
use stc_go.Unwind.Silence.{unwind-Quiet}
use stc_go.Fiber.{load, dispose}
use stc_go.Orchestrator.{handle}
use stc_go.Loop.{
  settle, try_exit, process, take_command, orchestrate, unwind_context, end_apply, finish_apply,
  start_apply, end_unwind, finish_unwind, begin_shutdown, close_with, close,
}
use stc_go.Trace.Numbers.{IsLog-later}
use stc_go.Steps.{is_callers}
use stc_go.Unwind.Spread.{Spread-IsTree}
use stc_go.Unwind.Descent.{unwind-Spread}
use stc_go.Steps.Trees.{load-IsTree}
use stc_go.Steps.Scoped.{
  IsHonest, Scoped, Scoped-trans, Scoped-refl, Scoped-same, Scoped-outside, Hushed-Scoped,
}
use stc_go.Steps.Settling.{settle-Scoped, handle-Scoped, trace_user-Scoped}

-- The loop counts the command that it has handled, and may leave.
pub exit-Scoped :
    (s : Shared)
    → Scoped s (try_exit (record s { orch = record s.orch { inflight = s.orch.inflight - 1 } }))
unfolding try_exit
exit-Scoped s =
    Scoped-outside s _ (ground arith) (ground arith) (ground arith) (ground arith) (ground arith)
      (λ g. ground arith) (λ v. ground (arith, v)) (λ v. ground (arith, v))

-- A command that is sent.
send-Scoped : (s : Shared) (c : Cmd) → IsHonest c → Scoped s (send s c).1
unfolding send
send-Scoped s c h =
    if_both {A = Bool × Shared} (λ x. Scoped s x.1) s.orch.exited (Scoped-refl s)
      (Scoped-outside s _ (omega arith) refl refl refl refl (λ g. refl)
        (λ v. All-append IsHonest s.orch.inbox (c ∷ []) v (h, tt)) (λ v. v))

pub dispose-Scoped : (s : Shared) (f : ℕ) → Scoped s (dispose s f)
unfolding dispose
dispose-Scoped s f = send-Scoped s (Store.dispose f) tt

pub shutdown-Scoped : (s : Shared) → Scoped s (begin_shutdown s)
unfolding begin_shutdown
shutdown-Scoped s =
    let t = record s { orch = record s.orch { stopping = true } } in
    Scoped-trans {t = t}
      (Scoped-outside s t (omega arith) refl refl refl refl (λ g. refl) (λ v. v) (λ v. v))
      (send-Scoped t Store.service tt)

pub load-Scoped :
    (s : Shared) (c : ℕ) (comp : Component) → c < s.next_context → Scoped s (load s c comp).1
unfolding load send is_inactive
load-Scoped s c comp h =
    Scoped-same s _ (ground arith) (ground arith) (ground arith) (ground arith)
      (λ o k. ground arith) (λ o v. ground arith)
      (λ v.
        ground (arith, All-append IsHonest s.orch.inbox (Store.load (s.seq + 1) ∷ []) v (tt, tt)))
      (load-IsTree s c comp h)
      (λ v. ground (arith, v, IsLog-later s.seq (s.seq + 1) s.trace (omega arith) v))

pub start_apply-Scoped : (s : Shared) (f : ℕ) → Scoped s (start_apply s f)
unfolding start_apply
start_apply-Scoped s f = trace_user-Scoped s Trace.apply_start f

end_apply-Scoped :
    (s : Shared) (f : ℕ) (i : Option Inverse) (e : Option Error) (o : Option (Task × List Task))
    → is_callers i ≡ true
    → Scoped s (end_apply s f i e o)
unfolding end_apply
end_apply-Scoped s f i e none h = Scoped-refl s
end_apply-Scoped s f i e (some (t, rest)) h =
    let u = record s { pending = s.pending - 1; tasks = rest } in
    Scoped-trans {t = u}
      (Scoped-outside s u (omega arith) refl refl refl refl (λ g. refl) (λ v. v) (λ v. v))
      (send-Scoped u (Store.applied f i e) h)

pub finish_apply-Scoped :
    (s : Shared) (f : ℕ) (i : Option Inverse) (e : Option Error)
    → is_callers i ≡ true
    → Scoped s (finish_apply s f i e)
unfolding finish_apply
finish_apply-Scoped s f i e h = end_apply-Scoped s f i e _ h

module _ (outcome : ℕ → Option Error) where
  -- A round of the loop.
  process-Scoped :
      (s : Shared) (c : Cmd) (rest : List Cmd)
      → s.orch.inbox ≡ c ∷ rest
      → All IsHonest s.orch.inbox
      → Scoped s (process outcome s c rest)
  unfolding process
  process-Scoped s c rest e v =
      let taken = record s { orch = record s.orch { inbox = rest; cmds = s.orch.cmds + 1 } } in
      let done = settle (handle outcome taken c) in
      let now = subst (All IsHonest) e v in
      Scoped-trans {t = taken}
        (Scoped-outside s taken (omega arith) refl refl refl refl (λ g. refl) (λ k. now.1) (λ v. v))
        (Scoped-trans {t = handle outcome taken c} (handle-Scoped outcome taken c now.0)
          (Scoped-trans {t = done} (settle-Scoped (handle outcome taken c)) (exit-Scoped done)))

  taken-Scoped :
      (s : Shared) (q : List Cmd)
      → s.orch.inbox ≡ q
      → All IsHonest s.orch.inbox
      → Scoped s (take_command outcome s q)
  unfolding take_command
  taken-Scoped s [] e v = Scoped-refl s
  taken-Scoped s (c ∷ rest) e v = process-Scoped s c rest e v

  pub orchestrate-Scoped :
      (s : Shared) → All IsHonest s.orch.inbox → Scoped s (orchestrate outcome s)
  unfolding orchestrate
  orchestrate-Scoped s v =
      if_both (Scoped s) s.orch.exited (Scoped-refl s) (taken-Scoped s s.orch.inbox refl v)

  pub unwind-Scoped : (s : Shared) (c : ℕ) → IsReady s → Scoped s (unwind outcome s c).1
  unwind-Scoped s c r =
      Hushed-Scoped s _ (unwind-Quiet outcome s c) (unwind-Hushed outcome s c r)
        (λ v. Spread-IsTree s _ (unwind-Spread outcome s c v) v)

  context-Scoped : (s : Shared) (t : Task) → IsReady s → Scoped s (unwind_context outcome s t)
  unfolding unwind_context
  context-Scoped s (unwind_task f (some c)) r = unwind-Scoped s c r
  context-Scoped s (unwind_task f none) r = Scoped-refl s
  context-Scoped s (apply_task f c) r = Scoped-refl s

  end_unwind-Scoped :
      (s : Shared) (f : ℕ) (o : Option (Task × List Task))
      → IsReady s
      → Scoped s (end_unwind outcome s f o)
  unfolding end_unwind
  end_unwind-Scoped s f none r = Scoped-refl s
  end_unwind-Scoped s f (some (t, rest)) r =
      let u = unwind_context outcome s t in
      let w = record u { pending = u.pending - 1; tasks = rest } in
      Scoped-trans {t = u} (context-Scoped s t r) (
        Scoped-trans {t = w}
          (Scoped-outside u w (omega arith) refl refl refl refl (λ g. refl) (λ v. v) (λ v. v))
          (send-Scoped w (Store.unwound f) tt))

  pub finish_unwind-Scoped : (s : Shared) (f : ℕ) → IsReady s → Scoped s (finish_unwind outcome s f)
  unfolding finish_unwind
  finish_unwind-Scoped s f r = end_unwind-Scoped s f _ r

  close_with-Scoped :
      (p : Option ℕ) (s : Shared) (c : ℕ) → IsReady s → Scoped s (close_with outcome p s c).1
  unfolding close_with
  close_with-Scoped none s c r = unwind-Scoped s c r
  close_with-Scoped (some p) s c r = Scoped-refl s

  pub close-Scoped : (s : Shared) (c : ℕ) → IsReady s → Scoped s (close outcome s c).1
  unfolding close
  close-Scoped s c r = close_with-Scoped (s.contexts c).parent s c r
