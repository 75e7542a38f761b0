-- ===== src/Steps/Settling.antt =====
-- Settling and the commands keep a recoverable application recoverable.
use stc_go.Base.{
  ℕ, suc, ◌≡◌, refl, Bool, true, false, ◌&&◌, not, Option, none, some, List, [], ◌∷◌, arith,
  if◌then◌else◌, if_both, Option-cases, inl, inr, length,
}
use stc_go.Base.Sort.{sort}
use stc_go.Key.{Error}
use stc_go.Trace
use stc_go.Store.{
  Inverse, user, FiberState, Cmd, Fiber, Shared, set_fiber, trace_user, trace_locked,
}
use stc_go.Store
use stc_go.Scope.{child, detach}
use stc_go.Fiber.{set_state, capture_deps}
use stc_go.Orchestrator.{
  handle, adopt, dispose_in, loaded, apply_result, unwound_result, mount, spawn, begin_load,
  begin_unload, settle_in, settle_fiber, settle_round, settle_with, request_dispose, remove_fiber,
}
use stc_go.Orchestrator.Settle.{settle_with-keeps}
use stc_go.Loop.{settled, settle}
use stc_go.Trace.Numbers.{IsLog-push}
use stc_go.Steps.{is_callers}
use stc_go.Steps.Trees.{mount-IsTree}
use stc_go.Steps.Scoped.{IsHonest, Scoped, Scoped-trans, Scoped-refl, Scoped-same, Scoped-outside}
use stc_go.Steps.Contexts.{user-Scoped, join-Scoped}

set_fiber-Scoped :
    (s : Shared) (f : ℕ) (x : Fiber) → x.home ≡ (s.fibers f).home → Scoped s (set_fiber s f x)
set_fiber-Scoped s f x e =
    Scoped-outside s _ (omega arith) refl refl refl refl (λ g. ground arith) (λ v. v) (λ v. v)

set_state-Scoped : (s : Shared) (f : ℕ) (st : FiberState) → Scoped s (set_state s f st)
unfolding set_state
set_state-Scoped s f st =
    Scoped-outside s _ (omega arith) refl refl refl refl (λ g. ground arith) (λ v. v)
      (λ v. IsLog-push s.seq s.trace _ (omega arith) v)

capture_deps-Scoped : (s : Shared) (f : ℕ) → Scoped s (capture_deps s f)
unfolding capture_deps
capture_deps-Scoped s f = set_fiber-Scoped s f _ refl

remove_fiber-Scoped : (s : Shared) (f : ℕ) (st : FiberState) → Scoped s (remove_fiber s f st)
unfolding remove_fiber set_state
remove_fiber-Scoped s f st =
    Scoped-outside s _ (omega arith) refl refl refl refl (λ g. ground arith) (λ v. v)
      (λ v. IsLog-push s.seq s.trace _ (omega arith) v)

begin_unload-Scoped : (s : Shared) (f : ℕ) → Scoped s (begin_unload s f)
unfolding begin_unload set_state
begin_unload-Scoped s f =
    Scoped-outside s _ (omega arith) refl refl refl refl (λ g. ground arith) (λ v. v)
      (λ v. IsLog-push s.seq s.trace _ (omega arith) v)

-- The new context is a child of the home that leaves its list; it is given to the fiber.
mount-Scoped : (s : Shared) (f : ℕ) → Scoped s (mount s f).1
unfolding mount child detach
mount-Scoped s f =
    Scoped-same s _ (ground arith) (ground arith) (ground arith) (ground arith)
      (λ o h. ground arith) (λ o v. ground arith) (λ v. ground arith) (mount-IsTree s f)
      (λ v. ground (arith, v))

begin_load-Scoped : (s : Shared) (f : ℕ) → Scoped s (begin_load s f)
unfolding begin_load spawn
begin_load-Scoped s f =
    let t = (mount s f).1 in
    let u = capture_deps t f in
    let w = set_state u f Store.loading in
    Scoped-trans {t = t} (mount-Scoped s f) (
      Scoped-trans {t = u} (capture_deps-Scoped t f) (
        Scoped-trans {t = w} (set_state-Scoped u f Store.loading)
          (Scoped-outside w _ (omega arith) refl refl refl refl (λ g. refl) (λ v. v) (λ v. v))))

-- `settle`
settle_in-Scoped :
    (st : FiberState) (b : Bool) (s : Shared) (f : ℕ) → Scoped s (settle_in st b s f).1
unfolding settle_in
settle_in-Scoped Store.pending b s f =
    if_both {A = Bool × Shared} (λ x. Scoped s x.1) (b && not (s.fibers f).dispose_requested)
      (Scoped-trans {t = request_dispose s f} (set_fiber-Scoped s f _ refl)
        (remove_fiber-Scoped (request_dispose s f) f Store.gone))
      (if_both {A = Bool × Shared} (λ x. Scoped s x.1) _ (begin_load-Scoped s f) (Scoped-refl s))
settle_in-Scoped Store.active b s f =
    if_both {A = Bool × Shared} (λ x. Scoped s x.1) (b && not (s.fibers f).dispose_requested)
      (Scoped-trans {t = request_dispose s f} (set_fiber-Scoped s f _ refl)
        (begin_unload-Scoped (request_dispose s f) f))
      (if_both {A = Bool × Shared} (λ x. Scoped s x.1) _ (begin_unload-Scoped s f) (Scoped-refl s))
settle_in-Scoped Store.loading b s f =
    if_both (Scoped s) b (set_fiber-Scoped s f _ refl) (Scoped-refl s)
settle_in-Scoped Store.unloading b s f =
    if_both (Scoped s) b (set_fiber-Scoped s f _ refl) (Scoped-refl s)
settle_in-Scoped Store.failed b s f = Scoped-refl s
settle_in-Scoped Store.gone b s f = Scoped-refl s

settle_round-Scoped :
    (b : Bool) (s : Shared) (fs : List ℕ) (ch : Bool) → Scoped s (settle_round b s fs ch).1
unfolding settle_round settle_fiber
settle_round-Scoped b s [] ch = Scoped-refl s
settle_round-Scoped b s (f ∷ fs) ch =
    let (c, t) = settle_fiber b s f in
    Scoped-trans {t = t} (settle_in-Scoped (s.fibers f).state b s f)
      (settle_round-Scoped b t fs (if c then true else ch))

pub settle-Scoped : (s : Shared) → Scoped s (settle s)
unfolding settle settled
settle-Scoped s = elim (Option-cases (settle_with (suc (length s.registry)) s)) [
  | inl e ↦ rw e (Scoped-refl s)
  | inr (u, e) ↦ rw e (
      settle_with-keeps (Scoped s)
        (λ t v.
          Scoped-trans {t = t} v (settle_round-Scoped t.orch.stopping t (sort t.registry) false))
        (suc (length s.registry)) s u e (Scoped-refl s))
]

-- The commands.
dispose_in-Scoped : (st : FiberState) (s : Shared) (f : ℕ) → Scoped s (dispose_in st s f)
unfolding dispose_in
dispose_in-Scoped Store.pending s f = remove_fiber-Scoped s f Store.gone
dispose_in-Scoped Store.loading s f = set_fiber-Scoped s f _ refl
dispose_in-Scoped Store.unloading s f = set_fiber-Scoped s f _ refl
dispose_in-Scoped Store.active s f =
    Scoped-trans {t = request_dispose s f} (set_fiber-Scoped s f _ refl)
      (begin_unload-Scoped (request_dispose s f) f)
dispose_in-Scoped Store.gone s f = Scoped-refl s
dispose_in-Scoped Store.failed s f = Scoped-refl s

apply_result-Scoped : (s : Shared) (f : ℕ) (e : Option Error) → Scoped s (apply_result s f e)
unfolding apply_result loaded
apply_result-Scoped s f none =
    if_both (Scoped s) (s.fibers f).dispose_requested (begin_unload-Scoped s f) (
      if_both (Scoped s) s.orch.stopping (begin_unload-Scoped s f) (
        if_both (Scoped s) _
          (Scoped-trans {t = capture_deps s f} (capture_deps-Scoped s f)
            (set_state-Scoped (capture_deps s f) f Store.active))
          (begin_unload-Scoped s f)))
apply_result-Scoped s f (some e) =
    let t = set_fiber s f (record (s.fibers f) { err = some e; has_failed = true }) in
    Scoped-trans {t = t} (set_fiber-Scoped s f _ refl) (begin_unload-Scoped t f)

unwound_result-Scoped : (s : Shared) (f : ℕ) → Scoped s (unwound_result s f)
unfolding unwound_result
unwound_result-Scoped s f =
    if_both (Scoped s) (s.fibers f).has_failed (remove_fiber-Scoped s f Store.failed) (
      if_both (Scoped s) (s.fibers f).dispose_requested (remove_fiber-Scoped s f Store.gone) (
        if_both (Scoped s) s.orch.stopping (remove_fiber-Scoped s f Store.gone)
          (if_both (Scoped s) _ (begin_load-Scoped s f) (set_state-Scoped s f Store.pending))))

pub trace_user-Scoped : (s : Shared) (k : Trace.TraceKind) (f : ℕ) → Scoped s (trace_user s k f)
unfolding trace_user trace_locked
trace_user-Scoped s k f =
    Scoped-outside s _ (omega arith) refl refl refl refl (λ g. refl) (λ v. v)
      (λ v. IsLog-push s.seq s.trace _ (omega arith) v)

module _ (outcome : ℕ → Option Error) where
  adopt-Scoped :
      (s : Shared) (c : Option ℕ) (i : Option Inverse)
      → is_callers i ≡ true
      → Scoped s (adopt outcome s c i)
  unfolding adopt
  adopt-Scoped s c none h = Scoped-refl s
  adopt-Scoped s none (some i) h = Scoped-refl s
  adopt-Scoped s (some c) (some (user n)) h =
      if_both (Scoped s) (s.contexts c).unwinding (user-Scoped outcome s n)
        (join-Scoped outcome s c n)
  adopt-Scoped s (some c) (some (Store.unprovide pk e)) h = cc
  adopt-Scoped s (some c) (some (Store.unisolate x k)) h = cc
  adopt-Scoped s (some c) (some (Store.unintercept x k id)) h = cc
  adopt-Scoped s (some c) (some (Store.unlisten n id)) h = cc

  pub handle-Scoped : (s : Shared) (c : Cmd) → IsHonest c → Scoped s (handle outcome s c)
  unfolding handle
  handle-Scoped s (Store.load f) h =
      Scoped-outside s _ (omega arith) refl refl refl refl (λ g. refl) (λ v. v) (λ v. v)
  handle-Scoped s (Store.dispose f) h = dispose_in-Scoped (s.fibers f).state s f
  handle-Scoped s (Store.applied f i e) h =
      let t = trace_user s Trace.applied f in
      let u = adopt outcome t (t.fibers f).ctx_ptr i in
      Scoped-trans {t = t} (trace_user-Scoped s Trace.applied f)
        (Scoped-trans {t = u} (adopt-Scoped t (t.fibers f).ctx_ptr i h) (apply_result-Scoped u f e))
  handle-Scoped s (Store.unwound f) h =
      let t = trace_user s Trace.unwound f in
      Scoped-trans {t = t} (trace_user-Scoped s Trace.unwound f) (unwound_result-Scoped t f)
  handle-Scoped s Store.service h = Scoped-refl s
