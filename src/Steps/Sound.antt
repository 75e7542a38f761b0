-- ===== src/Steps/Sound.antt =====
-- What holds in every state that an application can come to: the fibers are sound, and when the event
-- loop has left nothing is registered and nothing is in flight.
use stc_go.Base.{
  ℕ, ◌+◌, ◌≤◌, ◌≡◌, refl, sym, ◌∙◌, subst, Bool, true, false, Bool-cases, inl, inr, Option, [],
  arith,
}
use stc_go.Base.Sort.{contains}
use stc_go.Key.{Error, Reflect}
use stc_go.Store.{Inverse, Component, unprovide, Shared, new, send, is_inactive}
use stc_go.Fiber.{load, dispose}
use stc_go.Orchestrator.Invariant.{IsSound, requeue}
use stc_go.Orchestrator.Quiet.{Quiet, Inv-Quiet, run_inverse-Quiet}
use stc_go.Orchestrator.Numbers.{IsBorn, Works-IsBorn, Quiet-Works}
use stc_go.Unwind.Silence.{unwind-Quiet}
use stc_go.Unwind.{release}
use stc_go.Loop.{orchestrate, finish_apply, finish_unwind, begin_shutdown}
use stc_go.Loop.Idle.{
  finish_apply-exited, finish_apply-nil, finish_unwind-exited, finish_unwind-nil, close-Quiet,
  start_apply-Quiet, orchestrate-left,
}
use stc_go.Loop.Calls.{load-IsSound, dispose-IsSound, begin_shutdown-IsSound}
use stc_go.Loop.Ends.{finish_apply-IsSound, finish_unwind-IsSound}
use stc_go.Loop.Rounds.{orchestrate-IsSound}
use stc_go.Loop.Exit.{orchestrate-IsDrained}
use stc_go.Loop.Numbers.{
  orchestrate-IsBorn, dispose-IsBorn, begin_shutdown-IsBorn, load-IsBorn, finish_apply-IsBorn,
  finish_unwind-IsBorn,
}
use stc_go.Steps.{
  Step, child_step, set_step, isolate_step, intercept_step, on_step, emit_step, provide_step,
  withdraw_step, effect_step, release_step, load_step, dispose_step, orchestrate_step,
  start_apply_step, finish_apply_step, finish_unwind_step, shutdown_step, close_step, Reach, begin,
  step,
}
use stc_go.Steps.Silence.{
  child-Quiet, set-Quiet, isolate-Quiet, intercept-Quiet, on-Quiet, emit-Quiet, provide-Quiet,
  effect-Quiet,
}

-- Nothing is registered, and nothing is in flight.
pub record IsEmpty (s : Shared) : Type 0 where
  pub registry : s.registry ≡ []
  pub pending : s.pending ≡ 0

record IsGood (s : Shared) : Type 0 where
  sound : IsSound s
  born : IsBorn s
  left : s.orch.exited ≡ true → IsEmpty s

Quiet-IsGood : (s t : Shared) → Quiet s t → IsGood s → IsGood t
Quiet-IsGood s t w v = record {
  sound = λ g. requeue w.inbox (Inv-Quiet s t w s.orch.inbox g (v.sound g));
  born = Works-IsBorn s t s.seq (omega arith) (Quiet-Works s t s.seq w) v.born;
  left = λ e.
      let l = v.left (sym w.exited ∙ e) in
      record { registry = w.registry ∙ l.registry; pending = w.pending ∙ l.pending };
}

load-IsGood : (s : Shared) (c : ℕ) (comp : Component) → IsGood s → IsGood (load s c comp).1
unfolding load is_inactive send
load-IsGood s c comp v = record {
  sound = load-IsSound s c comp (v.born.unborn (s.seq + 1) (omega arith)) v.sound;
  born = load-IsBorn s c comp v.born;
  left = λ e. let l = v.left (ground arith) in ground (arith, l);
}

dispose-IsGood : (s : Shared) (f : ℕ) → f ≤ s.seq → IsGood s → IsGood (dispose s f)
unfolding dispose send
dispose-IsGood s f h v = record {
  sound = dispose-IsSound s f v.sound;
  born = dispose-IsBorn s f h v.born;
  left = λ e. let l = v.left (ground arith) in ground (arith, l);
}

shutdown-IsGood : (s : Shared) → IsGood s → IsGood (begin_shutdown s)
unfolding begin_shutdown send
shutdown-IsGood s v = record {
  sound = begin_shutdown-IsSound s v.sound;
  born = begin_shutdown-IsBorn s v.born;
  left = λ e. let l = v.left (ground arith) in ground (arith, l);
}

no_tasks : (s : Shared) → IsGood s → s.orch.exited ≡ true → s.tasks ≡ []
no_tasks s v e = ground (arith, v.left e, v.born.counted)

-- What holds after a step that does not reopen the loop and does nothing once the loop has left.
ended-IsGood :
    (s t : Shared)
    → (s.tasks ≡ [] → t ≡ s)
    → (s.orch.exited ≡ false → (t.orch.exited ≡ false) × IsSound t)
    → IsBorn t
    → IsGood s
    → IsGood t
ended-IsGood s t idle runs b v = elim (Bool-cases s.orch.exited) [
  | inl e ↦ subst IsGood (sym (idle (no_tasks s v e))) v
  | inr n ↦ record {
    sound = (runs n).1;
    born = b;
    left = λ e. absurd {A = IsEmpty t} (let k = (runs n).0 in cc);
  }
]

apply-IsGood :
    (s : Shared) (f : ℕ) (i : Option Inverse) (x : Option Error)
    → IsGood s
    → IsGood (finish_apply s f i x)
apply-IsGood s f i x v =
    ended-IsGood s _ (finish_apply-nil s f i x)
      (λ n. (finish_apply-exited s f i x n, finish_apply-IsSound s f i x n v.sound))
      (finish_apply-IsBorn s f i x v.born) v

module _ (r : Reflect) (outcome : ℕ → Option Error) (returns : Option Inverse → Bool) where
  unwind-IsGood : (s : Shared) (f : ℕ) → IsGood s → IsGood (finish_unwind outcome s f)
  unwind-IsGood s f v =
      ended-IsGood s _ (finish_unwind-nil outcome s f)
        (λ n. (finish_unwind-exited outcome s f n, finish_unwind-IsSound outcome s f n v.sound))
        (finish_unwind-IsBorn outcome s f v.born) v

  orchestrate-IsEmpty :
      (s : Shared) (b : Bool)
      → s.orch.exited ≡ b
      → IsGood s
      → (orchestrate outcome s).orch.exited ≡ true
      → IsEmpty (orchestrate outcome s)
  orchestrate-IsEmpty s true e v k = subst IsEmpty (sym (orchestrate-left outcome s e)) (v.left e)
  orchestrate-IsEmpty s false e v k =
      let d = orchestrate-IsDrained outcome s e k in
      record { registry = d.registry; pending = d.pending }

  orchestrate-IsGood : (s : Shared) → IsGood s → IsGood (orchestrate outcome s)
  orchestrate-IsGood s v = record {
    sound = orchestrate-IsSound outcome s v.sound;
    born = orchestrate-IsBorn outcome s v.born;
    left = orchestrate-IsEmpty s s.orch.exited refl v;
  }

  Step-IsGood : {s t : Shared} → Step r outcome returns s t → IsGood s → IsGood t
  unfolding release
  Step-IsGood {s} (child_step c h) v = Quiet-IsGood s _ (child-Quiet s c) v
  Step-IsGood {s} (set_step c k x h) v = Quiet-IsGood s _ (set-Quiet r s c k x) v
  Step-IsGood {s} (isolate_step c k x h) v = Quiet-IsGood s _ (isolate-Quiet s c k x) v
  Step-IsGood {s} (intercept_step c k x h) v = Quiet-IsGood s _ (intercept-Quiet s c k x) v
  Step-IsGood {s} (on_step c n fn h) v = Quiet-IsGood s _ (on-Quiet s c n fn) v
  Step-IsGood {s} (emit_step n args) v = Quiet-IsGood s _ (emit-Quiet s n args) v
  Step-IsGood {s} (provide_step c k x h) v = Quiet-IsGood s _ (provide-Quiet r s c k x) v
  Step-IsGood {s} (withdraw_step pk e) v =
      Quiet-IsGood s _ (run_inverse-Quiet outcome s (unprovide pk e)) v
  Step-IsGood {s} (effect_step c i h) v = Quiet-IsGood s _ (effect-Quiet outcome s c i) v
  Step-IsGood {s} (release_step c h) v = Quiet-IsGood s _ (unwind-Quiet outcome s c) v
  Step-IsGood {s} (load_step c comp h) v = load-IsGood s c comp v
  Step-IsGood {s} (dispose_step f h) v = dispose-IsGood s f h v
  Step-IsGood {s} orchestrate_step v = orchestrate-IsGood s v
  Step-IsGood {s} (start_apply_step f) v = Quiet-IsGood s _ (start_apply-Quiet s f) v
  Step-IsGood {s} (finish_apply_step f i e h) v = apply-IsGood s f i e v
  Step-IsGood {s} (finish_unwind_step f) v = unwind-IsGood s f v
  Step-IsGood {s} shutdown_step v = shutdown-IsGood s v
  Step-IsGood {s} (close_step c h) v = Quiet-IsGood s _ (close-Quiet outcome s c) v

  new-IsGood : IsGood new
  unfolding new contains
  new-IsGood = ground arith

  Reach-IsGood : {s : Shared} → Reach r outcome returns s → IsGood s
  Reach-IsGood begin = new-IsGood
  Reach-IsGood (step p q) = Step-IsGood q (Reach-IsGood p)

  -- In every state that an application can come to from New, by operations of its contexts, rounds
  -- of the event loop and ends of goroutines in any order, whatever inverses Apply has returned: a
  -- fiber is loading exactly while one goroutine of its Apply is in flight or has its end queued,
  -- and unloading exactly while one of its unwinding is, and there are never two; a command to
  -- load it is queued once at most, only while it is pending and not registered, and never behind
  -- one to dispose of it; a registered fiber is in no final state, and one that is not registered
  -- is pending or in a final state; no pending or active fiber has a disposal noted, and one with
  -- a failure noted is unloading or has failed.
  pub Reach-IsSound : (s : Shared) → Reach r outcome returns s → IsSound s
  Reach-IsSound s p = (Reach-IsGood p).sound

  -- In every state that an application can come to from New, whatever inverses Apply has returned,
  -- where the event loop has left, no fiber is registered, the counter of the goroutines is 0 and
  -- none is in flight.
  pub Reach-IsEmpty :
      (s : Shared) → Reach r outcome returns s → s.orch.exited ≡ true → IsEmpty s × (s.tasks ≡ [])
  Reach-IsEmpty s p e = let v = Reach-IsGood p in (v.left e, no_tasks s v e)
