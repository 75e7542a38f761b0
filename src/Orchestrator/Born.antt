-- ===== src/Orchestrator/Born.antt =====
-- Settling and the commands, for the numbers of fibers.
use stc_go.Base.{
  refl, inl, ℕ, ◌≤◌, ◌≡◌, Bool, true, false, ◌&&◌, not, Option, none, some, List, [], ◌∷◌, arith,
  All, if◌then◌else◌, dec_le, if_both,
}
use stc_go.Base.Sort.{contains, sort, contains-add_key, All-sort, All-contains}
use stc_go.Key.{Error}
use stc_go.Store.{Cmd, Shared, set_fiber, trace_user}
use stc_go.Store
use stc_go.Trace
use stc_go.Fiber.{capture_deps}
use stc_go.Orchestrator.{
  handle, adopt, dispose_in, loaded, apply_result, unwound_result, settle_in, settle_fiber,
  settle_round, settle_with, request_dispose,
}
use stc_go.Orchestrator.Quiet.{Quiet-refl, Quiet-trans, trace_user-Quiet}
use stc_go.Orchestrator.Invariant.{adopt-Quiet}
use stc_go.Orchestrator.Settle.{settle_with-keeps}
use stc_go.Orchestrator.Numbers.{
  IsUnborn, IsBorn, Woken, Woken-trans, Works, Works-IsBorn, Works-trans, Works-if, Quiet-Works,
  begin_load-Works, begin_unload-Works, remove_fiber-Works, set_fiber-Works, set_state-Works,
  capture_deps-Works,
}

-- `settle`, one fiber at a time.
settle_in-Works :
    (st : Store.FiberState) (b : Bool) (s : Shared) (f : ℕ) → Works s (settle_in st b s f).1 f
unfolding settle_in
settle_in-Works Store.pending b s f =
    if_both {A = Bool × Shared} (λ x. Works s x.1 f) (b && not (s.fibers f).dispose_requested)
      (Works-trans {t = request_dispose s f} (set_fiber-Works s f _ refl)
        (remove_fiber-Works (request_dispose s f) f Store.gone))
      (if_both {A = Bool × Shared} (λ x. Works s x.1 f) _ (begin_load-Works s f)
        (Quiet-Works s s f (Quiet-refl s)))
settle_in-Works Store.active b s f =
    if_both {A = Bool × Shared} (λ x. Works s x.1 f) (b && not (s.fibers f).dispose_requested)
      (Works-trans {t = request_dispose s f} (set_fiber-Works s f _ refl)
        (begin_unload-Works (request_dispose s f) f))
      (if_both {A = Bool × Shared} (λ x. Works s x.1 f) _ (begin_unload-Works s f)
        (Quiet-Works s s f (Quiet-refl s)))
settle_in-Works Store.loading b s f =
    Works-if b (set_fiber-Works s f _ refl) (Quiet-Works s s f (Quiet-refl s))
settle_in-Works Store.unloading b s f =
    Works-if b (set_fiber-Works s f _ refl) (Quiet-Works s s f (Quiet-refl s))
settle_in-Works Store.failed b s f = Quiet-Works s s f (Quiet-refl s)
settle_in-Works Store.gone b s f = Quiet-Works s s f (Quiet-refl s)

settle_fiber-Works : (b : Bool) (s : Shared) (f : ℕ) → Works s (settle_fiber b s f).1 f
unfolding settle_fiber
settle_fiber-Works b s f = settle_in-Works (s.fibers f).state b s f

settle_round-IsBorn :
    (b : Bool) (s : Shared) (n : ℕ) (fs : List ℕ) (ch : Bool)
    → n ≤ s.seq
    → All (λ f. f ≤ n) fs
    → IsBorn s
    → IsBorn (settle_round b s fs ch).1
unfolding settle_round
settle_round-IsBorn b s n [] ch h l v = v
settle_round-IsBorn b s n (f ∷ fs) ch h l v =
    let (c, t) = settle_fiber b s f in
    let w = settle_fiber-Works b s f in
    settle_round-IsBorn b t n fs (if c then true else ch) (omega (arith, w.seq)) l.1
      (Works-IsBorn s t f (omega (arith, l.0, h)) w v)

pub given_out : (s : Shared) (f : ℕ) → IsBorn s → ¬ IsUnborn s f → f ≤ s.seq
given_out s f b n = elim (dec_le f s.seq) [
  | yes e ↦ e
  | no ne ↦ absurd (n (b.unborn f (ground arith)))
]

-- A registered fiber has a number that was given out.
pub registered : (s : Shared) (f : ℕ) → IsBorn s → contains f s.registry ≡ true → f ≤ s.seq
registered s f b h = given_out s f b (λ u. ground (arith, u))

snapshot_born :
    (s : Shared)
    → IsBorn s
    → (fs : List ℕ) → All (λ f. contains f s.registry ≡ true) fs
    → All (λ f. f ≤ s.seq) fs
snapshot_born s b [] h = tt
snapshot_born s b (f ∷ fs) h = (registered s f b h.0, snapshot_born s b fs h.1)

pub settle_with-IsBorn :
    (fuel : ℕ) (s u : Shared) → settle_with fuel s ≡ some u → IsBorn s → IsBorn u
settle_with-IsBorn = settle_with-keeps IsBorn (λ s v.
    settle_round-IsBorn s.orch.stopping s s.seq (sort s.registry) false (omega arith)
      (snapshot_born s v (sort s.registry)
        (All-sort _ s.registry (All-contains s.registry s.registry (λ a h. h))))
      v)

-- A command, for the fiber that it names.
abbrev pub named : Cmd → ℕ → ℕ
named (Store.load f) n = f
named (Store.dispose f) n = f
named (Store.applied f i e) n = f
named (Store.unwound f) n = f
named Store.service n = n

dispose_in-Works : (st : Store.FiberState) (s : Shared) (f : ℕ) → Works s (dispose_in st s f) f
unfolding dispose_in
dispose_in-Works Store.pending s f = remove_fiber-Works s f Store.gone
dispose_in-Works Store.loading s f = set_fiber-Works s f _ refl
dispose_in-Works Store.unloading s f = set_fiber-Works s f _ refl
dispose_in-Works Store.active s f =
    Works-trans {t = request_dispose s f} (set_fiber-Works s f _ refl)
      (begin_unload-Works (request_dispose s f) f)
dispose_in-Works Store.gone s f = Quiet-Works s s f (Quiet-refl s)
dispose_in-Works Store.failed s f = Quiet-Works s s f (Quiet-refl s)

apply_result-Works : (s : Shared) (f : ℕ) (e : Option Error) → Works s (apply_result s f e) f
unfolding apply_result loaded
apply_result-Works s f none = Works-if (s.fibers f).dispose_requested (begin_unload-Works s f) (
    Works-if s.orch.stopping (begin_unload-Works s f) (
      Works-if _
        (Works-trans {t = capture_deps s f} (capture_deps-Works s f)
          (set_state-Works (capture_deps s f) f Store.active))
        (begin_unload-Works s f)))
apply_result-Works s f (some e) =
    let t = set_fiber s f (record (s.fibers f) { err = some e; has_failed = true }) in
    Works-trans {t = t} (set_fiber-Works s f _ refl) (begin_unload-Works t f)

unwound_result-Works : (s : Shared) (f : ℕ) → Works s (unwound_result s f) f
unfolding unwound_result
unwound_result-Works s f = Works-if (s.fibers f).has_failed (remove_fiber-Works s f Store.failed) (
    Works-if (s.fibers f).dispose_requested (remove_fiber-Works s f Store.gone) (
      Works-if s.orch.stopping (remove_fiber-Works s f Store.gone)
        (Works-if _ (begin_load-Works s f) (set_state-Works s f Store.pending))))

pub handle-Works :
    (outcome : ℕ → Option Error) (s : Shared) (c : Cmd) (n : ℕ)
    → Works s (handle outcome s c) (named c n)
unfolding handle
handle-Works outcome s (Store.load f) n = record {
  seq = omega arith;
  others = λ g ne v. ground (arith, v, contains-add_key f g s.registry);
  counted = λ e. e;
  woken = λ g. record { calls = omega arith; state = inl refl };
}
handle-Works outcome s (Store.dispose f) n = dispose_in-Works (s.fibers f).state s f
handle-Works outcome s (Store.applied f i e) n =
    let t = trace_user s Trace.applied f in
    let u = adopt outcome t (t.fibers f).ctx_ptr i in
    Works-trans {t = u}
      (Quiet-Works s u f (
        Quiet-trans {t = t} (trace_user-Quiet s Trace.applied f)
          (adopt-Quiet outcome t (t.fibers f).ctx_ptr i)))
      (apply_result-Works u f e)
handle-Works outcome s (Store.unwound f) n =
    let t = trace_user s Trace.unwound f in
    Works-trans {t = t} (Quiet-Works s t f (trace_user-Quiet s Trace.unwound f))
      (unwound_result-Works t f)
handle-Works outcome s Store.service n = Quiet-Works s s n (Quiet-refl s)

-- Whoever waits is called over the rounds of `settle`.
settle_round-Woken :
    (b : Bool) (s : Shared) (fs : List ℕ) (ch : Bool) (g : ℕ) → Woken s (settle_round b s fs ch).1 g
unfolding settle_round
settle_round-Woken b s [] ch g = (Quiet-Works s s g (Quiet-refl s)).woken g
settle_round-Woken b s (f ∷ fs) ch g =
    let (c, t) = settle_fiber b s f in
    Woken-trans {t = t} ((settle_fiber-Works b s f).woken g)
      (settle_round-Woken b t fs (if c then true else ch) g)

pub settle_with-Woken :
    (fuel : ℕ) (s u : Shared) (g : ℕ) → settle_with fuel s ≡ some u → Woken s u g
settle_with-Woken fuel s u g e =
    settle_with-keeps (λ t. Woken s t g)
      (λ t v.
        Woken-trans {t = t} v (settle_round-Woken t.orch.stopping t (sort t.registry) false g))
      fuel s u e ((Quiet-Works s s g (Quiet-refl s)).woken g)
