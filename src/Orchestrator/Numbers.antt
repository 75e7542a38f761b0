-- ===== src/Orchestrator/Numbers.antt =====
-- The numbers that fibers have: nothing is known of a fiber whose number was not given out yet, and
-- the counter of the goroutines is their number.
use stc_go.Base.{
  ℕ, ◌≤◌, ◌<◌, ◌≡◌, ◌≢◌, ◌⊎◌, inl, inr, refl, ap, Bool, true, false, [], ◌∷◌, arith, length,
  length-append, count_if, count_if-append, if◌then◌else◌,
}
use stc_go.Base.Sort.{contains, contains-delete_key}
use stc_go.Store.{apply_task, unwind_task, Shared, set_fiber}
use stc_go.Store
use stc_go.Fiber.{set_state, capture_deps}
use stc_go.Orchestrator.{mount, begin_load, begin_unload, remove_fiber}
use stc_go.Orchestrator.Frames.{Life, begin_load-Spawned, begin_unload-Spawned}
use stc_go.Orchestrator.Tokens.{is_apply, is_unwind, is_applied, is_unwound, is_load, is_dispose}
use stc_go.Orchestrator.Quiet.{Quiet, services, count-services}

-- The number has been given to no fiber yet.
pub record IsUnborn (s : Shared) (f : ℕ) : Type 0 where
  pub unregistered : contains f s.registry ≡ false
  pub no_apply : count_if (is_apply f) s.tasks ≡ 0
  pub no_unwind : count_if (is_unwind f) s.tasks ≡ 0
  pub no_applied : count_if (is_applied f) s.orch.inbox ≡ 0
  pub no_unwound : count_if (is_unwound f) s.orch.inbox ≡ 0
  pub no_load : count_if (is_load f) s.orch.inbox ≡ 0
  pub no_dispose : count_if (is_dispose f) s.orch.inbox ≡ 0

pub record IsBorn (s : Shared) : Type 0 where
  pub unborn : (g : ℕ) → s.seq < g → IsUnborn s g
  pub counted : s.pending ≡ length s.tasks

-- Whoever waits for a fiber is called where the fiber changes its state.
pub record Woken (s t : Shared) (g : ℕ) : Type 0 where
  pub calls : s.fiber_wakes ≤ t.fiber_wakes
  pub state : ((t.fibers g).state ≡ (s.fibers g).state) ⊎ (s.fiber_wakes < t.fiber_wakes)

pub Woken-trans : {s t u : Shared} {g : ℕ} → Woken s t g → Woken t u g → Woken s u g
Woken-trans a b = ground (arith, a, b)

-- A step for the fiber `f` alone.
pub record Works (s t : Shared) (f : ℕ) : Type 0 where
  pub seq : s.seq ≤ t.seq
  pub others : (g : ℕ) → f ≢ g → IsUnborn s g → IsUnborn t g
  pub counted : s.pending ≡ length s.tasks → t.pending ≡ length t.tasks
  pub woken : (g : ℕ) → Woken s t g

pub Works-IsBorn : (s t : Shared) (f : ℕ) → f ≤ s.seq → Works s t f → IsBorn s → IsBorn t
Works-IsBorn s t f h w b = record {
  unborn = λ g k. w.others g (λ e. ground arith) (b.unborn g (omega (arith, w.seq, k)));
  counted = w.counted b.counted;
}

pub Works-trans : {s t u : Shared} {f : ℕ} → Works s t f → Works t u f → Works s u f
Works-trans a b = record {
  seq = omega (arith, a.seq, b.seq);
  others = λ g ne v. b.others g ne (a.others g ne v);
  counted = λ e. b.counted (a.counted e);
  woken = λ g. Woken-trans (a.woken g) (b.woken g);
}

pub Works-if :
    {s t u : Shared} {f : ℕ} (b : Bool) → Works s t f → Works s u f → Works s (if b then t else u) f
Works-if true p q = p
Works-if false p q = q

pub Quiet-Works : (s t : Shared) (f : ℕ) → Quiet s t → Works s t f
Quiet-Works s t f w = record {
  seq = w.seq;
  others = λ g ne v. ground (
    arith,
    w.registry,
    w.tasks,
    w.inbox,
    v,
    count_if-append (is_applied g) s.orch.inbox (services w.wakes),
    count-services (is_applied g) w.wakes refl,
    count_if-append (is_unwound g) s.orch.inbox (services w.wakes),
    count-services (is_unwound g) w.wakes refl,
    count_if-append (is_load g) s.orch.inbox (services w.wakes),
    count-services (is_load g) w.wakes refl,
    count_if-append (is_dispose g) s.orch.inbox (services w.wakes),
    count-services (is_dispose g) w.wakes refl,
  );
  counted = λ e. ground (arith, w.pending, w.tasks);
  woken = λ g. record {
    calls = omega (arith, w.calls);
    state = inl (ap (λ (l : Life). l.state) (w.lives g));
  };
}

pub begin_load-Works : (s : Shared) (f : ℕ) → Works s (begin_load s f) f
begin_load-Works s f =
    let t = apply_task f (mount s f).0 in
    let p = begin_load-Spawned s f in
    record {
      seq = p.seq;
      others = λ g ne v. ground (
        arith,
        p,
        v,
        count_if-append (is_apply g) s.tasks (t ∷ []),
        count_if-append (is_unwind g) s.tasks (t ∷ []),
      );
      counted = λ e. ground (arith, p, length-append s.tasks (t ∷ []));
      woken = λ g. record { calls = omega (arith, p.fiber_wakes); state = inr p.fiber_wakes };
    }

pub begin_unload-Works : (s : Shared) (f : ℕ) → Works s (begin_unload s f) f
begin_unload-Works s f =
    let t = unwind_task f (s.fibers f).ctx_ptr in
    let p = begin_unload-Spawned s f in
    record {
      seq = p.seq;
      others = λ g ne v. ground (
        arith,
        p,
        v,
        count_if-append (is_apply g) s.tasks (t ∷ []),
        count_if-append (is_unwind g) s.tasks (t ∷ []),
      );
      counted = λ e. ground (arith, p, length-append s.tasks (t ∷ []));
      woken = λ g. record { calls = omega (arith, p.fiber_wakes); state = inr p.fiber_wakes };
    }

pub remove_fiber-Works :
    (s : Shared) (f : ℕ) (st : Store.FiberState) → Works s (remove_fiber s f st) f
unfolding remove_fiber set_state
remove_fiber-Works s f st = record {
  seq = omega arith;
  others = λ g ne v. ground (arith, v, contains-delete_key f g s.registry);
  counted = λ e. e;
  woken = λ g. record { calls = omega arith; state = inr (omega arith) };
}

pub set_fiber-Works :
    (s : Shared) (f : ℕ) (x : Store.Fiber)
    → x.state ≡ (s.fibers f).state
    → Works s (set_fiber s f x) f
set_fiber-Works s f x k = record {
  seq = omega arith;
  others = λ g ne v. ground (arith, v);
  counted = λ e. e;
  woken = λ g. record { calls = omega arith; state = inl (ground (arith, k)) };
}

pub set_state-Works : (s : Shared) (f : ℕ) (st : Store.FiberState) → Works s (set_state s f st) f
unfolding set_state
set_state-Works s f st = record {
  seq = omega arith;
  others = λ g ne v. ground (arith, v);
  counted = λ e. e;
  woken = λ g. record { calls = omega arith; state = inr (omega arith) };
}

pub capture_deps-Works : (s : Shared) (f : ℕ) → Works s (capture_deps s f) f
unfolding capture_deps
capture_deps-Works s f = set_fiber-Works s f _ refl
