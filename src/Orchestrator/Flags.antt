-- ===== src/Orchestrator/Flags.antt =====
-- The commands leave the orchestrator's own flags alone, and add to its queue at the end.
use stc_go.Base.{
  ℕ, ◌≡◌, refl, sym, ap, ◌∙◌, ◌++◌, append_nil, Bool, true, Option, none, some, arith,
}
use stc_go.Key.{Error}
use stc_go.Trace
use stc_go.Store.{Cmd, Orchestrator, FiberState, Shared, set_fiber, trace_user}
use stc_go.Store
use stc_go.Fiber.{set_state, capture_deps}
use stc_go.Orchestrator.{
  handle, adopt, dispose_in, loaded, apply_result, unwound_result, request_dispose, remove_fiber,
}
use stc_go.Orchestrator.Frames.{begin_load-Spawned, begin_unload-Spawned}
use stc_go.Orchestrator.Quiet.{Quiet, services, Quiet-trans, trace_user-Quiet}
use stc_go.Orchestrator.Invariant.{adopt-Quiet}

-- Whether the orchestrator is stopping, and whether its loop has left.
abbrev pub Flags : Type 0
Flags = Bool × Bool

abbrev pub flags : Shared → Flags
flags s = (s.orch.stopping, s.orch.exited)

apply_result-orch : (s : Shared) (f : ℕ) (e : Option Error) → (apply_result s f e).orch ≡ s.orch
unfolding apply_result loaded set_state capture_deps
apply_result-orch s f none = ground (arith, begin_unload-Spawned s f)
apply_result-orch s f (some e) = ground (
  arith,
  begin_unload-Spawned (set_fiber s f (record (s.fibers f) { err = some e; has_failed = true })) f,
)

unwound_result-orch : (s : Shared) (f : ℕ) → (unwound_result s f).orch ≡ s.orch
unfolding unwound_result set_state remove_fiber
unwound_result-orch s f = ground (arith, begin_load-Spawned s f)

dispose_in-orch : (st : FiberState) (s : Shared) (f : ℕ) → (dispose_in st s f).orch ≡ s.orch
unfolding dispose_in set_state remove_fiber
dispose_in-orch Store.active s f = ground (arith, begin_unload-Spawned (request_dispose s f) f)
dispose_in-orch Store.pending s f = refl
dispose_in-orch _ s f = refl

-- What a command does to the orchestrator's fields.
pub record Adds (s t : Shared) : Type 0 where
  pub flags : flags t ≡ flags s
  pub wakes : ℕ
  pub inbox : t.orch.inbox ≡ s.orch.inbox ++ services wakes

same-Adds : (s t : Shared) → t.orch ≡ s.orch → Adds s t
same-Adds s t e = record {
  flags = ap (λ (o : Orchestrator). (o.stopping, o.exited)) e;
  wakes = 0;
  inbox = ap (λ (o : Orchestrator). o.inbox) e ∙ sym (append_nil s.orch.inbox);
}

-- A step that no fiber notices, and one that leaves the orchestrator.
Quiet-Adds : (s t u : Shared) → Quiet s t → u.orch ≡ t.orch → Adds s u
Quiet-Adds s t u w e = record {
  flags =
      ap (λ (o : Orchestrator). (o.stopping, o.exited)) e ∙ ground (arith, w.stopping, w.exited);
  wakes = w.wakes;
  inbox = ap (λ (o : Orchestrator). o.inbox) e ∙ w.inbox;
}

pub handle-Adds : (outcome : ℕ → Option Error) (s : Shared) (c : Cmd) → Adds s (handle outcome s c)
unfolding handle
handle-Adds outcome s (Store.load f) = same-Adds s _ refl
handle-Adds outcome s (Store.dispose f) = same-Adds s _ (dispose_in-orch _ s f)
handle-Adds outcome s (Store.applied f i e) =
    let t = trace_user s Trace.applied f in
    let u = adopt outcome t (t.fibers f).ctx_ptr i in
    Quiet-Adds s u (apply_result u f e)
      (Quiet-trans {t = t} (trace_user-Quiet s Trace.applied f)
        (adopt-Quiet outcome t (t.fibers f).ctx_ptr i))
      (apply_result-orch u f e)
handle-Adds outcome s (Store.unwound f) =
    let t = trace_user s Trace.unwound f in
    Quiet-Adds s t (unwound_result t f) (trace_user-Quiet s Trace.unwound f)
      (unwound_result-orch t f)
handle-Adds outcome s Store.service = same-Adds s s refl

pub handle-flags :
    (outcome : ℕ → Option Error) (s : Shared) (c : Cmd) → flags (handle outcome s c) ≡ flags s
handle-flags outcome s c = (handle-Adds outcome s c).flags
