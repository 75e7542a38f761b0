-- ===== src/Steps/Waiting.antt =====
-- No call is lost on whoever waits for a fiber in Ready or Gone, in any interleaving.
use stc_go.Base.{ℕ, ◌≤◌, ◌≡◌, refl, inl, inr, Bool, Option, none, some, arith, ◌==◌, if_both}
use stc_go.Key.{Error, Reflect}
use stc_go.Store.{Fiber, Inverse, unprovide, Shared}
use stc_go.Fiber.{ready_now, gone_now}
use stc_go.Fiber.Waiting.{
  Wait, ready_wait, gone_wait, look, Phase, subscribing, checking, blocked, returned, looked,
  wait_turn,
}
use stc_go.Unwind.{release}
use stc_go.Unwind.Silence.{unwind-Quiet}
use stc_go.Orchestrator.Quiet.{Quiet, run_inverse-Quiet}
use stc_go.Orchestrator.Numbers.{Woken}
use stc_go.Loop.Idle.{close-Quiet, start_apply-Quiet}
use stc_go.Loop.Calling.{
  Quiet-Woken, orchestrate-Woken, finish_unwind-Woken, finish_apply-Woken, dispose-Woken,
  shutdown-Woken, load-Woken,
}
use stc_go.Steps.{
  Step, child_step, set_step, isolate_step, intercept_step, on_step, emit_step, provide_step,
  withdraw_step, effect_step, release_step, load_step, dispose_step, orchestrate_step,
  start_apply_step, finish_apply_step, finish_unwind_step, shutdown_step, close_step, Reach, step,
}
use stc_go.Steps.Silence.{
  child-Quiet, set-Quiet, isolate-Quiet, intercept-Quiet, on-Quiet, emit-Quiet, provide-Quiet,
  effect-Quiet,
}
use stc_go.Steps.Rounds.{load-Scoped, dispose-Scoped, shutdown-Scoped}
use stc_go.Steps.Counting.{seq-orchestrate, seq-finish_apply, seq-finish_unwind}

-- Numbers are only given out, and a change of the fiber's state calls.
pub record Calls (s t : Shared) (f : ℕ) : Type 0 where
  pub seq : s.seq ≤ t.seq
  pub woken : Woken s t f

quiet : (s t : Shared) (f : ℕ) → Quiet s t → Calls s t f
quiet s t f w = record { seq = w.seq; woken = Quiet-Woken s t f w }

module _ (r : Reflect) (outcome : ℕ → Option Error) (returns : Option Inverse → Bool) where
  pub Step-Calls : {s t : Shared} (f : ℕ) → f ≤ s.seq → Step r outcome returns s t → Calls s t f
  unfolding release
  Step-Calls {s} f k (child_step c h) = quiet s _ f (child-Quiet s c)
  Step-Calls {s} f k (set_step c key x h) = quiet s _ f (set-Quiet r s c key x)
  Step-Calls {s} f k (isolate_step c key x h) = quiet s _ f (isolate-Quiet s c key x)
  Step-Calls {s} f k (intercept_step c key x h) = quiet s _ f (intercept-Quiet s c key x)
  Step-Calls {s} f k (on_step c n fn h) = quiet s _ f (on-Quiet s c n fn)
  Step-Calls {s} f k (emit_step n args) = quiet s _ f (emit-Quiet s n args)
  Step-Calls {s} f k (provide_step c key x h) = quiet s _ f (provide-Quiet r s c key x)
  Step-Calls {s} f k (withdraw_step pk e) =
      quiet s _ f (run_inverse-Quiet outcome s (unprovide pk e))
  Step-Calls {s} f k (effect_step c i h) = quiet s _ f (effect-Quiet outcome s c i)
  Step-Calls {s} f k (release_step c h) = quiet s _ f (unwind-Quiet outcome s c)
  Step-Calls {s} f k (load_step c comp h) = record {
    seq = (load-Scoped s c comp h).seq;
    woken = load-Woken s c comp f k;
  }
  Step-Calls {s} f k (dispose_step g h) = record {
    seq = (dispose-Scoped s g).seq;
    woken = dispose-Woken s g f;
  }
  Step-Calls {s} f k orchestrate_step = record {
    seq = seq-orchestrate outcome s;
    woken = orchestrate-Woken outcome s f;
  }
  Step-Calls {s} f k (start_apply_step g) = quiet s _ f (start_apply-Quiet s g)
  Step-Calls {s} f k (finish_apply_step g i e h) = record {
    seq = seq-finish_apply s g i e;
    woken = finish_apply-Woken s g i e f;
  }
  Step-Calls {s} f k (finish_unwind_step g) = record {
    seq = seq-finish_unwind outcome s g;
    woken = finish_unwind-Woken outcome s g f;
  }
  Step-Calls {s} f k shutdown_step = record {
    seq = (shutdown-Scoped s).seq;
    woken = shutdown-Woken s f;
  }
  Step-Calls {s} f k (close_step c h) = quiet s _ f (close-Quiet outcome s c)

  -- A caller of Ready or Gone beside an application: it enters in some state that the application
  -- has come to, with a fiber whose number was given out, and takes its turns between the steps.
  pub data Waits (k : Wait) (f : ℕ) : Shared → Phase → Type 0 where
    enter : {s : Shared} → Reach r outcome returns s → f ≤ s.seq → Waits k f s subscribing
    elsewhere :
        {s t : Shared} {p : Phase} → Waits k f s p → Step r outcome returns s t → Waits k f t p
    turn :
        {s : Shared} {p : Phase} (gives_up : Bool)
        → Waits k f s p
        → Waits k f s (wait_turn k s f gives_up p)

  -- What holds of a caller at each phase.
  abbrev Fine : Wait → ℕ → Shared → Phase → Type 0
  Fine k f s subscribing = Unit {0}
  Fine k f s (checking n) = n ≤ s.fiber_wakes
  Fine k f s (blocked n) = (n ≤ s.fiber_wakes) × (s.fiber_wakes ≡ n → look k (s.fibers f) ≡ none)
  Fine k f s (returned e) = Unit {0}

  record Sees (k : Wait) (f : ℕ) (s : Shared) (p : Phase) : Type 0 where
    reached : Reach r outcome returns s
    known : f ≤ s.seq
    fine : Fine k f s p

  -- The answer of a look is there or not by the state alone.
  look-state : (k : Wait) (x y : Fiber) → y.state ≡ x.state → look k x ≡ none → look k y ≡ none
  unfolding ready_now gone_now
  look-state ready_wait x y e h = ground (arith, e, h)
  look-state gone_wait x y e h = ground (arith, e, h)

  moved-Fine :
      (k : Wait) (f : ℕ) (s t : Shared) (p : Phase) → Woken s t f → Fine k f s p → Fine k f t p
  moved-Fine k f s t subscribing w v = tt
  moved-Fine k f s t (checking n) w v = omega (arith, w.calls, v)
  moved-Fine k f s t (blocked n) w v = (
    omega (arith, w.calls, v.0),
    λ e. elim w.state [
      | inl same ↦
          look-state k (s.fibers f) (t.fibers f) same (v.1 (omega (arith, w.calls, v.0, e)))
      | inr more ↦ absurd (omega (arith, more, v.0, e))
    ],
  )
  moved-Fine k f s t (returned x) w v = tt

  looked-Fine :
      (k : Wait) (f : ℕ) (s : Shared) (n : ℕ) (o : Option (Option Error))
      → look k (s.fibers f) ≡ o
      → n ≤ s.fiber_wakes
      → Fine k f s (looked n o)
  unfolding looked
  looked-Fine k f s n none e v = (v, λ _. e)
  looked-Fine k f s n (some x) e v = tt

  turn-Fine :
      (k : Wait) (f : ℕ) (s : Shared) (g : Bool) (p : Phase)
      → Fine k f s p
      → Fine k f s (wait_turn k s f g p)
  unfolding wait_turn
  turn-Fine k f s g subscribing v = omega arith
  turn-Fine k f s g (checking n) v = looked-Fine k f s n (look k (s.fibers f)) refl v
  turn-Fine k f s g (blocked n) v =
      if_both (Fine k f s) g tt (if_both (Fine k f s) (s.fiber_wakes == n) v tt)
  turn-Fine k f s g (returned x) v = tt

  Waits-Sees : {k : Wait} {f : ℕ} {s : Shared} {p : Phase} → Waits k f s p → Sees k f s p
  Waits-Sees (enter h k) = record { reached = h; known = k; fine = tt }
  Waits-Sees {k} {f} (elsewhere {s} {t} {p} w q) =
      let v = Waits-Sees w in
      let c = Step-Calls f v.known q in
      record {
        reached = step v.reached q;
        known = omega (arith, v.known, c.seq);
        fine = moved-Fine k f s t p c.woken v.fine;
      }
  Waits-Sees {k} {f} (turn {s} {p} g w) =
      let v = Waits-Sees w in
      record { reached = v.reached; known = v.known; fine = turn-Fine k f s g p v.fine }

  -- In any interleaving of an application, whatever inverses Apply returns, with the turns of a
  -- caller of Ready or of Gone: where the caller is blocked on a channel that no broadcast has
  -- closed, the fiber is in the present state still not in one that the call waits for. No call is
  -- lost.
  pub Waits-look :
      (k : Wait) (f n : ℕ) (s : Shared)
      → Waits k f s (blocked n)
      → s.fiber_wakes ≡ n
      → look k (s.fibers f) ≡ none
  Waits-look k f n s w e = (Waits-Sees w).fine.1 e
