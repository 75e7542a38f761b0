-- ===== src/Orchestrator/Moves.antt =====
-- The order of a fiber's states: it loads only once its dependencies are provided, and it moves
-- along the diagram of fiber.go alone.
use stc_go.Base.{
  ℕ, ◌≡◌, ◌≢◌, refl, sym, subst, ap, ◌∙◌, ◌⊎◌, inl, Bool, true, false, Option, none, some, ◌∷◌,
  arith,
}
use stc_go.Key.{Error}
use stc_go.Trace
use stc_go.Store.{FiberState, Cmd, Shared, set_fiber, trace_user}
use stc_go.Store
use stc_go.Fiber.{deps_satisfied, capture_deps}
use stc_go.Orchestrator.{
  handle, adopt, settle_fiber, request_dispose, apply_result, unwound_result, dispose_in,
}
use stc_go.Orchestrator.Frames.{
  Life, life, begin_load-life, begin_unload-life, remove_fiber-life, set_state-life,
}
use stc_go.Orchestrator.Tokens.{Inv}
use stc_go.Orchestrator.Quiet.{Quiet, Quiet-trans, trace_user-Quiet, capture_deps-Quiet}
use stc_go.Orchestrator.Invariant.{adopt-Quiet, applied-Taken, unwound-Taken}

-- A step of settle starts to load a fiber that was not loading only where nothing is shutting
-- down, the fiber is pending and every injected key resolves.
pub settle_loading :
    (b : Bool) (s : Shared) (f g : ℕ)
    → (life s g).state ≢ Store.loading
    → (life (settle_fiber b s f).1 g).state ≡ Store.loading
    → (f ≡ g) × (b ≡ false) × (deps_satisfied s g ≡ true) × ((life s g).state ≡ Store.pending)
unfolding settle_fiber
settle_loading b s f g n e = ground (
  arith,
  begin_load-life s f g,
  begin_unload-life s f g,
  begin_unload-life (request_dispose s f) f g,
  remove_fiber-life (request_dispose s f) f Store.gone g,
)

-- The diagram of `FiberState`, with the ways out of a load that a dispose or the loss of a
-- dependency overtakes, out of a pending fiber that is disposed of, and back to a load.
abbrev pub follows : FiberState → FiberState → Bool
follows Store.pending Store.loading = true
follows Store.pending Store.gone = true
follows Store.loading Store.active = true
follows Store.loading Store.unloading = true
follows Store.active Store.unloading = true
follows Store.unloading Store.pending = true
follows Store.unloading Store.loading = true
follows Store.unloading Store.failed = true
follows Store.unloading Store.gone = true
follows _ _ = false

abbrev pub Moves : Shared → Shared → ℕ → Type 0
Moves s t g =
    ((life t g).state ≡ (life s g).state) ⊎ (follows (life s g).state (life t g).state ≡ true)

-- A step of settle moves no fiber off the diagram of states.
pub settle_fiber-Moves : (b : Bool) (s : Shared) (f g : ℕ) → Moves s (settle_fiber b s f).1 g
unfolding settle_fiber
settle_fiber-Moves b s f g = ground (
  arith,
  begin_load-life s f g,
  begin_unload-life s f g,
  begin_unload-life (request_dispose s f) f g,
  remove_fiber-life (request_dispose s f) f Store.gone g,
)

dispose-Moves :
    (st : FiberState) (s : Shared) (f g : ℕ) → (life s f).state ≡ st → Moves s (dispose_in st s f) g
unfolding dispose_in
dispose-Moves Store.pending s f g e = ground (arith, remove_fiber-life s f Store.gone g)
dispose-Moves Store.active s f g e = ground (arith, begin_unload-life (request_dispose s f) f g)
dispose-Moves _ s f g e = ground arith

apply_result-Moves :
    (s : Shared) (f g : ℕ) (e : Option Error)
    → (life s f).state ≡ Store.loading
    → Moves s (apply_result s f e) g
unfolding apply_result
apply_result-Moves s f g none l = ground (
  arith,
  begin_unload-life s f g,
  set_state-life (capture_deps s f) f Store.active g,
  (capture_deps-Quiet s f).lives g,
)
apply_result-Moves s f g (some e) l = ground (
  arith,
  begin_unload-life (set_fiber s f (record (s.fibers f) { err = some e; has_failed = true })) f g,
)

unwound_result-Moves :
    (s : Shared) (f g : ℕ) → (life s f).state ≡ Store.unloading → Moves s (unwound_result s f) g
unfolding unwound_result
unwound_result-Moves s f g l = ground (
  arith,
  begin_load-life s f g,
  remove_fiber-life s f Store.failed g,
  remove_fiber-life s f Store.gone g,
  set_state-life s f Store.pending g,
)

Moves-Quiet : (s t u : Shared) (g : ℕ) → Quiet s t → Moves t u g → Moves s u g
Moves-Quiet s t u g w m = ground (arith, w.lives g)

-- With every fiber in its invariant, no command that is handled moves a fiber off the diagram of
-- states: a fiber that has failed or is gone never moves again.
pub handle-Moves :
    (outcome : ℕ → Option Error) (s : Shared) (c : Cmd) (g : ℕ)
    → ((f : ℕ) → Inv s (c ∷ s.orch.inbox) f)
    → Moves s (handle outcome s c) g
unfolding handle
handle-Moves outcome s (Store.load f) g v = inl refl
handle-Moves outcome s (Store.dispose f) g v = dispose-Moves _ s f g refl
handle-Moves outcome s (Store.applied f i e) g v =
    let t = trace_user s Trace.applied f in
    let u = adopt outcome t (t.fibers f).ctx_ptr i in
    let w =
      Quiet-trans {t = t} (trace_user-Quiet s Trace.applied f)
        (adopt-Quiet outcome t (t.fibers f).ctx_ptr i) in
    Moves-Quiet s u (apply_result u f e) g w (
      apply_result-Moves u f g e
        (ap (λ (l : Life). l.state) (w.lives f) ∙ (applied-Taken s f i e v).1))
handle-Moves outcome s (Store.unwound f) g v =
    let t = trace_user s Trace.unwound f in
    Moves-Quiet s t (unwound_result t f) g (trace_user-Quiet s Trace.unwound f) (
      unwound_result-Moves t f g (
        ap (λ (l : Life). l.state) ((trace_user-Quiet s Trace.unwound f).lives f)
        ∙ (unwound-Taken s f v).1))
handle-Moves outcome s Store.service g v = inl refl

apply_result_loading :
    (s : Shared) (f g : ℕ) (e : Option Error)
    → (life (apply_result s f e) g).state ≡ Store.loading
    → (life s g).state ≡ Store.loading
unfolding apply_result
apply_result_loading s f g none l = ground (
  arith,
  begin_unload-life s f g,
  set_state-life (capture_deps s f) f Store.active g,
  (capture_deps-Quiet s f).lives g,
)
apply_result_loading s f g (some e) l = ground (
  arith,
  begin_unload-life (set_fiber s f (record (s.fibers f) { err = some e; has_failed = true })) f g,
)

-- Nothing stands in the way of a new load.
abbrev pub CanReload : Shared → ℕ → Type 0
CanReload s g =
    (deps_satisfied s g ≡ true)
    × ((life s g).disposing ≡ false)
    × ((life s g).failing ≡ false)
    × (s.orch.stopping ≡ false)

unwound_result_loading :
    (s : Shared) (f g : ℕ)
    → (life s g).state ≢ Store.loading
    → (life (unwound_result s f) g).state ≡ Store.loading
    → (f ≡ g) × CanReload s g
unfolding unwound_result
unwound_result_loading s f g n l = ground (
  arith,
  begin_load-life s f g,
  remove_fiber-life s f Store.failed g,
  remove_fiber-life s f Store.gone g,
  set_state-life s f Store.pending g,
)

dispose_loading :
    (st : FiberState) (s : Shared) (f g : ℕ)
    → (life (dispose_in st s f) g).state ≡ Store.loading
    → (life s g).state ≡ Store.loading
unfolding dispose_in
dispose_loading Store.pending s f g e = ground (arith, remove_fiber-life s f Store.gone g)
dispose_loading Store.active s f g e = ground (arith, begin_unload-life (request_dispose s f) f g)
dispose_loading _ s f g e = ground arith

-- A command starts to load a fiber that was not loading only at the end of the fiber's unloading,
-- and only where no disposal, no failure and no shutdown is under way and every injected key
-- resolves.
pub handle_loading :
    (outcome : ℕ → Option Error) (s : Shared) (c : Cmd) (g : ℕ)
    → (life s g).state ≢ Store.loading
    → (life (handle outcome s c) g).state ≡ Store.loading
    → (c ≡ Store.unwound g) × CanReload (trace_user s Trace.unwound g) g
unfolding handle
handle_loading outcome s (Store.load f) g n e = absurd (n e)
handle_loading outcome s (Store.dispose f) g n e = absurd (n (dispose_loading _ s f g e))
handle_loading outcome s (Store.applied f i x) g n e =
    let t = trace_user s Trace.applied f in
    let u = adopt outcome t (t.fibers f).ctx_ptr i in
    let w =
      Quiet-trans {t = t} (trace_user-Quiet s Trace.applied f)
        (adopt-Quiet outcome t (t.fibers f).ctx_ptr i) in
    absurd (n (sym (ap (λ (l : Life). l.state) (w.lives g)) ∙ apply_result_loading u f g x e))
handle_loading outcome s (Store.unwound f) g n e =
    let t = trace_user s Trace.unwound f in
    let w = trace_user-Quiet s Trace.unwound f in
    let (p, r) =
      unwound_result_loading t f g (λ l. n (sym (ap (λ (l' : Life). l'.state) (w.lives g)) ∙ l))
        e in
    (ap Store.unwound p, subst (λ x. CanReload (trace_user s Trace.unwound x) g) p r)
handle_loading outcome s Store.service g n e = absurd (n e)
