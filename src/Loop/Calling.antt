-- ===== src/Loop/Calling.antt =====
-- Whoever waits for a fiber is called over the rounds of the event loop and the ends of the goroutines.
use stc_go.Base.{
  ℕ, suc, ◌-◌, ◌+◌, ◌≤◌, ◌≡◌, refl, inl, inr, Option, none, some, List, [], ◌∷◌, arith, if_both,
  length, Option-cases,
}
use stc_go.Key.{Error}
use stc_go.Store.{Inverse, Cmd, Task, Component, Shared, send, is_inactive}
use stc_go.Fiber.{load, dispose}
use stc_go.Orchestrator.{handle, settle_with}
use stc_go.Orchestrator.Quiet.{Quiet, Quiet-refl}
use stc_go.Orchestrator.Numbers.{Woken, Woken-trans, Quiet-Works}
use stc_go.Orchestrator.Born.{settle_with-Woken, handle-Works}
use stc_go.Loop.{
  settled, settle, try_exit, process, take_command, orchestrate, unwind_context, end_apply,
  finish_apply, end_unwind, finish_unwind, begin_shutdown,
}
use stc_go.Loop.Ends.{context-Quiet}

-- A step that leaves the fibers' states and calls nobody.
still :
    (s t : Shared) (g : ℕ)
    → (t.fibers g).state ≡ (s.fibers g).state
    → t.fiber_wakes ≡ s.fiber_wakes
    → Woken s t g
still s t g e w = record { calls = omega (arith, w); state = inl e }

pub Quiet-Woken : (s t : Shared) (g : ℕ) → Quiet s t → Woken s t g
Quiet-Woken s t g w = (Quiet-Works s t g w).woken g

settle-Woken : (s : Shared) (g : ℕ) → Woken s (settle s) g
unfolding settle settled
settle-Woken s g = elim (Option-cases (settle_with (suc (length s.registry)) s)) [
  | inl e ↦ rw e (Quiet-Woken s s g (Quiet-refl s))
  | inr (u, e) ↦ rw e (settle_with-Woken (suc (length s.registry)) s u g e)
]

exit-Woken :
    (s : Shared) (g : ℕ)
    → Woken s (try_exit (record s { orch = record s.orch { inflight = s.orch.inflight - 1 } })) g
unfolding try_exit
exit-Woken s g = still s _ g (ground arith) (ground arith)

module _ (outcome : ℕ → Option Error) where
  process-Woken :
      (s : Shared) (c : Cmd) (rest : List Cmd) (g : ℕ) → Woken s (process outcome s c rest) g
  unfolding process
  process-Woken s c rest g =
      let taken = record s { orch = record s.orch { inbox = rest; cmds = s.orch.cmds + 1 } } in
      let done = settle (handle outcome taken c) in
      Woken-trans {t = taken} (still s taken g refl refl) (
        Woken-trans {t = handle outcome taken c} ((handle-Works outcome taken c g).woken g)
          (Woken-trans {t = done} (settle-Woken (handle outcome taken c) g) (exit-Woken done g)))

  taken-Woken : (s : Shared) (q : List Cmd) (g : ℕ) → Woken s (take_command outcome s q) g
  unfolding take_command
  taken-Woken s [] g = still s s g refl refl
  taken-Woken s (c ∷ rest) g = process-Woken s c rest g

  pub orchestrate-Woken : (s : Shared) (g : ℕ) → Woken s (orchestrate outcome s) g
  unfolding orchestrate
  orchestrate-Woken s g =
      if_both (λ t. Woken s t g) s.orch.exited (still s s g refl refl)
        (taken-Woken s s.orch.inbox g)

  end_unwind-Woken :
      (s : Shared) (f : ℕ) (o : Option (Task × List Task)) (g : ℕ)
      → Woken s (end_unwind outcome s f o) g
  unfolding end_unwind send
  end_unwind-Woken s f none g = still s s g refl refl
  end_unwind-Woken s f (some (t, rest)) g =
      let u = unwind_context outcome s t in
      Woken-trans {t = u} (Quiet-Woken s u g (context-Quiet outcome s t))
        (still u _ g (ground arith) (ground arith))

  pub finish_unwind-Woken : (s : Shared) (f g : ℕ) → Woken s (finish_unwind outcome s f) g
  unfolding finish_unwind
  finish_unwind-Woken s f g = end_unwind-Woken s f _ g

end_apply-Woken :
    (s : Shared) (f : ℕ) (i : Option Inverse) (e : Option Error) (o : Option (Task × List Task))
    (g : ℕ)
    → Woken s (end_apply s f i e o) g
unfolding end_apply send
end_apply-Woken s f i e o g = still s _ g (ground arith) (ground arith)

pub finish_apply-Woken :
    (s : Shared) (f : ℕ) (i : Option Inverse) (e : Option Error) (g : ℕ)
    → Woken s (finish_apply s f i e) g
unfolding finish_apply
finish_apply-Woken s f i e g = end_apply-Woken s f i e _ g

pub dispose-Woken : (s : Shared) (f g : ℕ) → Woken s (dispose s f) g
unfolding dispose send
dispose-Woken s f g = still s _ g (ground arith) (ground arith)

pub shutdown-Woken : (s : Shared) (g : ℕ) → Woken s (begin_shutdown s) g
unfolding begin_shutdown send
shutdown-Woken s g = still s _ g (ground arith) (ground arith)

-- The state of a new fiber is set before its number is given out.
pub load-Woken :
    (s : Shared) (c : ℕ) (comp : Component) (g : ℕ) → g ≤ s.seq → Woken s (load s c comp).1 g
unfolding load send is_inactive
load-Woken s c comp g h = still s _ g (ground arith) (ground arith)
