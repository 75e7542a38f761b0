-- ===== src/Orchestrator/Turns.antt =====
-- The commands and `settle` make only turns of the abstract machine of a fiber's life.
use stc_go.Base.{
  ℕ, ◌≡◌, refl, sym, subst, ap, ◌∙◌, inl, inr, Bool, Bool-cases, true, false, not, Option, none,
  some, List, [], ◌∷◌, ◌==◌, if◌then◌else◌, ◌&&◌, arith, if_both,
}
use stc_go.Key.{Error}
use stc_go.Trace
use stc_go.Store.{FiberState, Cmd, Shared, trace_user, set_fiber}
use stc_go.Store
use stc_go.Fiber.{set_state, capture_deps, deps_satisfied}
use stc_go.Orchestrator.{
  handle, adopt, dispose_in, loaded, apply_result, unwound_result, settle_in, settle_fiber,
  settle_round, settle_with, request_dispose, remove_fiber, begin_load, begin_unload,
}
use stc_go.Orchestrator.Frames.{
  Life, life, begin_load-life, begin_unload-life, remove_fiber-life, set_state-life,
}
use stc_go.Orchestrator.Tokens.{Inv, is_resting, is_terminal}
use stc_go.Orchestrator.Quiet.{Quiet, Quiet-trans, trace_user-Quiet, capture_deps-Quiet}
use stc_go.Orchestrator.Invariant.{adopt-Quiet, applied-Taken, unwound-Taken}
use stc_go.Orchestrator.Settle.{settle_with-keeps}
use stc_go.Orchestrator.Cycle.{
  Turn, starts, completes, fails, overtaken, leaves, rests, restarts, breaks, ends, dropped, asked,
  Trail, stay, turn, Sane, Cycles, AllSane, Cycles-trans, Cycles-same, Cycles-AllSane,
}

-- A step that makes one turn of one fiber's life.
one_turn :
    (s t : Shared) (f : ℕ) (n : Life)
    → ((g : ℕ) → life t g ≡ (if f == g then n else life s g))
    → Turn (life s f) n
    → Cycles s t
one_turn s t f n e w = record {
  trails = λ g. elim (Bool-cases (f == g)) [
    | inl same ↦
        let f≡g : f ≡ g = ground arith in
        let now : life t g ≡ n = e g ∙ ap (λ (b : Bool). if b then n else life s g) same in
        subst (Trail (life s g)) (sym now) (turn stay (subst (λ x. Turn (life s x) n) f≡g w))
    | inr other ↦
        let now : life t g ≡ life s g = e g ∙ ap (λ (b : Bool). if b then n else life s g) other in
        subst (Trail (life s g)) (sym now) stay
  ];
}

Quiet-Cycles : (s t : Shared) → Quiet s t → Cycles s t
Quiet-Cycles s t w = Cycles-same s t w.lives

remove-turn :
    (s : Shared) (f : ℕ) (st : FiberState)
    → Turn (life s f) (record (life s f) { state = st })
    → Cycles s (remove_fiber s f st)
remove-turn s f st w =
    one_turn s (remove_fiber s f st) f (record (life s f) { state = st })
      (λ g. ground (arith, remove_fiber-life s f st g)) w

load-turn :
    (s : Shared) (f : ℕ)
    → Turn (life s f) (record (life s f) { state = Store.loading })
    → Cycles s (begin_load s f)
load-turn s f w =
    one_turn s (begin_load s f) f (record (life s f) { state = Store.loading })
      (λ g. ground (arith, begin_load-life s f g)) w

unload-turn :
    (s : Shared) (f : ℕ)
    → Turn (life s f) (record (life s f) { state = Store.unloading })
    → Cycles s (begin_unload s f)
unload-turn s f w =
    one_turn s (begin_unload s f) f (record (life s f) { state = Store.unloading })
      (λ g. ground (arith, begin_unload-life s f g)) w

ask-turn :
    (s : Shared) (f : ℕ)
    → is_resting (life s f).state ≡ false
    → is_terminal (life s f).state ≡ false
    → Cycles s (request_dispose s f)
ask-turn s f r t =
    one_turn s (request_dispose s f) f (record (life s f) { disposing = true }) (λ g. ground arith)
      (asked r t)

dispose_unload-turn :
    (s : Shared) (f : ℕ)
    → (life s f).state ≡ Store.active
    → Cycles s (begin_unload (request_dispose s f) f)
dispose_unload-turn s f e =
    one_turn s (begin_unload (request_dispose s f) f) f
      (record (life s f) { state = Store.unloading; disposing = true })
      (λ g. ground (arith, begin_unload-life (request_dispose s f) f g)) (leaves e true)

dispose_remove-turn :
    (s : Shared) (f : ℕ)
    → (life s f).state ≡ Store.pending
    → Cycles s (remove_fiber (request_dispose s f) f Store.gone)
dispose_remove-turn s f e =
    one_turn s (remove_fiber (request_dispose s f) f Store.gone) f
      (record (life s f) { state = Store.gone; disposing = true })
      (λ g. ground (arith, remove_fiber-life (request_dispose s f) f Store.gone g)) (dropped e true)

settle_in-Cycles :
    (st : FiberState) (b : Bool) (s : Shared) (f : ℕ)
    → (life s f).state ≡ st
    → Sane (life s f)
    → Cycles s (settle_in st b s f).1
unfolding settle_in
settle_in-Cycles Store.pending b s f e v =
    if_both {A = Bool × Shared} (λ x. Cycles s x.1) (b && not (s.fibers f).dispose_requested)
      (dispose_remove-turn s f e)
      (if_both {A = Bool × Shared} (λ x. Cycles s x.1) _
        (load-turn s f (starts e (ground (arith, v)))) (Cycles-same s s (λ g. refl)))
settle_in-Cycles Store.active b s f e v =
    if_both {A = Bool × Shared} (λ x. Cycles s x.1) (b && not (s.fibers f).dispose_requested)
      (dispose_unload-turn s f e)
      (if_both {A = Bool × Shared} (λ x. Cycles s x.1) _
        (unload-turn s f (leaves e (life s f).disposing)) (Cycles-same s s (λ g. refl)))
settle_in-Cycles Store.loading b s f e v =
    if_both (Cycles s) b (ask-turn s f (ground arith) (ground arith)) (Cycles-same s s (λ g. refl))
settle_in-Cycles Store.unloading b s f e v =
    if_both (Cycles s) b (ask-turn s f (ground arith) (ground arith)) (Cycles-same s s (λ g. refl))
settle_in-Cycles Store.failed b s f e v = Cycles-same s s (λ g. refl)
settle_in-Cycles Store.gone b s f e v = Cycles-same s s (λ g. refl)

settle_round-Cycles :
    (b : Bool) (s : Shared) (fs : List ℕ) (ch : Bool)
    → AllSane s
    → Cycles s (settle_round b s fs ch).1
unfolding settle_round settle_fiber
settle_round-Cycles b s [] ch v = Cycles-same s s (λ g. refl)
settle_round-Cycles b s (f ∷ fs) ch v =
    let (c, t) = settle_fiber b s f in
    let w : Cycles s t = settle_in-Cycles (s.fibers f).state b s f refl (v.sane f) in
    Cycles-trans {t = t} w
      (settle_round-Cycles b t fs (if c then true else ch) (Cycles-AllSane w v))

pub settle_with-Cycles :
    (fuel : ℕ) (s u : Shared) → settle_with fuel s ≡ some u → AllSane s → Cycles s u
settle_with-Cycles fuel s u e v =
    settle_with-keeps (Cycles s)
      (λ t w.
        Cycles-trans {t = t} w (settle_round-Cycles t.orch.stopping t _ false (Cycles-AllSane w v)))
      fuel s u e (Cycles-same s s (λ g. refl))

dispose_in-Cycles :
    (st : FiberState) (s : Shared) (f : ℕ) → (life s f).state ≡ st → Cycles s (dispose_in st s f)
unfolding dispose_in
dispose_in-Cycles Store.pending s f e = remove-turn s f Store.gone (dropped e (life s f).disposing)
dispose_in-Cycles Store.loading s f e = ask-turn s f (ground arith) (ground arith)
dispose_in-Cycles Store.unloading s f e = ask-turn s f (ground arith) (ground arith)
dispose_in-Cycles Store.active s f e = dispose_unload-turn s f e
dispose_in-Cycles Store.gone s f e = Cycles-same s s (λ g. refl)
dispose_in-Cycles Store.failed s f e = Cycles-same s s (λ g. refl)

activate-Cycles :
    (s : Shared) (f : ℕ)
    → (life s f).state ≡ Store.loading
    → (life s f).disposing ≡ false
    → Cycles s (set_state (capture_deps s f) f Store.active)
activate-Cycles s f e d =
    one_turn s (set_state (capture_deps s f) f Store.active) f
      (record (life s f) { state = Store.active })
      (λ g. ground (
        arith,
        set_state-life (capture_deps s f) f Store.active g,
        (capture_deps-Quiet s f).lives g,
      ))
      (completes e d)

apply_result-Cycles :
    (s : Shared) (f : ℕ) (x : Option Error)
    → (life s f).state ≡ Store.loading
    → Cycles s (apply_result s f x)
unfolding apply_result loaded
apply_result-Cycles s f none e = elim (Bool-cases (s.fibers f).dispose_requested) [
  | inl d ↦ rw d (unload-turn s f (overtaken e))
  | inr d ↦ rw d (
      if_both (Cycles s) s.orch.stopping (unload-turn s f (overtaken e)) (
        if_both (Cycles s) (deps_satisfied s f) (activate-Cycles s f e d)
          (unload-turn s f (overtaken e))))
]
apply_result-Cycles s f (some x) e =
    let t = set_fiber s f (record (s.fibers f) { err = some x; has_failed = true }) in
    one_turn s (begin_unload t f) f (record (life s f) { state = Store.unloading; failing = true })
      (λ g. ground (arith, begin_unload-life t f g)) (fails e)

unwound_result-Cycles :
    (s : Shared) (f : ℕ) → (life s f).state ≡ Store.unloading → Cycles s (unwound_result s f)
unfolding unwound_result
unwound_result-Cycles s f e = elim (Bool-cases (s.fibers f).has_failed) [
  | inl x ↦ rw x (remove-turn s f Store.failed (breaks e x))
  | inr x ↦
      let end : Cycles s (remove_fiber s f Store.gone) = remove-turn s f Store.gone (ends e x) in
      rw x (elim (Bool-cases (s.fibers f).dispose_requested) [
        | inl d ↦ rw d end
        | inr d ↦ rw d (
            if_both (Cycles s) s.orch.stopping end (
              if_both (Cycles s) (deps_satisfied s f) (load-turn s f (restarts e d x)) (
                one_turn s (set_state s f Store.pending) f
                  (record (life s f) { state = Store.pending })
                  (λ g. ground (arith, set_state-life s f Store.pending g)) (rests e d x))))
      ])
]

-- With every fiber in its invariant, a command makes only turns.
pub handle-Cycles :
    (outcome : ℕ → Option Error) (s : Shared) (c : Cmd)
    → ((f : ℕ) → Inv s (c ∷ s.orch.inbox) f)
    → Cycles s (handle outcome s c)
unfolding handle
handle-Cycles outcome s (Store.load f) v = Cycles-same s _ (λ g. refl)
handle-Cycles outcome s (Store.dispose f) v = dispose_in-Cycles (s.fibers f).state s f refl
handle-Cycles outcome s (Store.applied f i x) v =
    let t = trace_user s Trace.applied f in
    let u = adopt outcome t (t.fibers f).ctx_ptr i in
    let w : Quiet s u =
      Quiet-trans {t = t} (trace_user-Quiet s Trace.applied f)
        (adopt-Quiet outcome t (t.fibers f).ctx_ptr i) in
    Cycles-trans {t = u} (Quiet-Cycles s u w) (
      apply_result-Cycles u f x
        (ap (λ (l : Life). l.state) (w.lives f) ∙ (applied-Taken s f i x v).1))
handle-Cycles outcome s (Store.unwound f) v =
    let t = trace_user s Trace.unwound f in
    let w = trace_user-Quiet s Trace.unwound f in
    Cycles-trans {t = t} (Quiet-Cycles s t w)
      (unwound_result-Cycles t f (ap (λ (l : Life). l.state) (w.lives f) ∙ (unwound-Taken s f v).1))
handle-Cycles outcome s Store.service v = Cycles-same s s (λ g. refl)
