-- ===== src/Steps/Lives.antt =====
-- The fibers of an application live by the abstract machine of `Orchestrator.Cycle`.
use stc_go.Base.{
  ℕ, ◌+◌, ◌≤◌, ◌≡◌, ◌≢◌, ◌∙◌, none, some, List, ◌⊎◌, inl, inr, refl, sym, ap, subst, Option, Bool,
  Bool-cases, true, false, ◌==◌, arith,
}
use stc_go.Key.{Error, Reflect}
use stc_go.Store.{Component, Inverse, Task, unprovide, Shared, new, send, is_inactive}
use stc_go.Store
use stc_go.Fiber.{load, dispose}
use stc_go.Unwind.{release}
use stc_go.Unwind.Silence.{unwind-Quiet}
use stc_go.Orchestrator.Frames.{Life, life}
use stc_go.Orchestrator.Tokens.{is_terminal}
use stc_go.Orchestrator.Quiet.{Quiet, run_inverse-Quiet}
use stc_go.Orchestrator.Cycle.{Trail, stay, Trail-trans, Trail-final, Cycles, Cycles-same}
use stc_go.Loop.{finish_apply, finish_unwind, end_apply, end_unwind, begin_shutdown}
use stc_go.Loop.Idle.{close-Quiet, start_apply-Quiet}
use stc_go.Loop.Turns.{orchestrate-Cycles}
use stc_go.Steps.{
  Step, child_step, set_step, isolate_step, intercept_step, on_step, emit_step, provide_step,
  withdraw_step, effect_step, release_step, load_step, dispose_step, orchestrate_step,
  start_apply_step, finish_apply_step, finish_unwind_step, shutdown_step, close_step, Reach, begin,
  step, Run, stop, go,
}
use stc_go.Steps.Silence.{
  child-Quiet, set-Quiet, isolate-Quiet, intercept-Quiet, on-Quiet, emit-Quiet, provide-Quiet,
  effect-Quiet,
}
use stc_go.Loop.Ends.{context-Quiet}
use stc_go.Steps.Sound.{Reach-IsSound}
use stc_go.Steps.Waiting.{Step-Calls}

abbrev pub at_birth : Life
at_birth = record { state = Store.pending; disposing = false; failing = false }

-- Load was refused.
abbrev pub stillborn : Life
stillborn = record { state = Store.failed; disposing = false; failing = false }

-- What a step does to the fibers' lives: turns of those that there are, or the birth of one.
data Effect (s t : Shared) : Type 0 where
  turns : Cycles s t → Effect s t
  born : (c : ℕ) (comp : Component) → (load s c comp).1 ≡ t → Effect s t

same : (s t : Shared) → Quiet s t → Effect s t
same s t w = turns (Cycles-same s t w.lives)

load-life :
    (s : Shared) (c : ℕ) (comp : Component) (g : ℕ)
    → (s.seq + 1 ≡ g
        → (life (load s c comp).1 g ≡ at_birth) ⊎ (life (load s c comp).1 g ≡ stillborn))
      × (s.seq + 1 ≢ g → life (load s c comp).1 g ≡ life s g)
unfolding load is_inactive send
load-life s c comp g = (λ e. ground arith, λ n. ground arith)

-- The life of a fiber so far.
abbrev pub Lived : Shared → ℕ → Type 0
Lived s g = Trail at_birth (life s g) ⊎ (life s g ≡ stillborn)

Effect-Lived : (s t : Shared) (g : ℕ) → Effect s t → Lived s g → Lived t g
Effect-Lived s t g (turns w) (inl p) = inl (Trail-trans p (w.trails g))
Effect-Lived s t g (turns w) (inr e) =
    inr (Trail-final (w.trails g) (ap (λ (l : Life). is_terminal l.state) e) ∙ e)
Effect-Lived s t g (born c comp e) v =
    subst (λ u. Lived u g) e
      (elim (Bool-cases (s.seq + 1 == g)) [
        | inl k ↦ elim ((load-life s c comp g).0 (ground arith)) [
          | inl l ↦ inl (subst (Trail at_birth) (sym l) stay)
          | inr l ↦ inr l
        ]
        | inr k ↦
            let l = (load-life s c comp g).1 (λ x. ground arith) in
            elim v [ inl p ↦ inl (subst (Trail at_birth) (sym l) p) | inr x ↦ inr (l ∙ x) ]
      ])

finish_apply-Cycles :
    (s : Shared) (f : ℕ) (i : Option Inverse) (e : Option Error) → Cycles s (finish_apply s f i e)
unfolding finish_apply end_apply send
finish_apply-Cycles s f i e = Cycles-same s _ (λ g. ground arith)

end_unwind-Cycles :
    (outcome : ℕ → Option Error) (s : Shared) (f : ℕ) (o : Option (Task × List Task))
    → Cycles s (end_unwind outcome s f o)
unfolding end_unwind send
end_unwind-Cycles outcome s f none = Cycles-same s s (λ g. refl)
end_unwind-Cycles outcome s f (some (t, rest)) =
    Cycles-same s _ (λ g. ground (arith, (context-Quiet outcome s t).lives g))

module _ (r : Reflect) (outcome : ℕ → Option Error) (returns : Option Inverse → Bool) where
  Step-Effect : {s t : Shared} → Step r outcome returns s t → Reach r outcome returns s → Effect s t
  unfolding release dispose begin_shutdown send finish_unwind
  Step-Effect {s} (child_step c h) v = same s _ (child-Quiet s c)
  Step-Effect {s} (set_step c k x h) v = same s _ (set-Quiet r s c k x)
  Step-Effect {s} (isolate_step c k x h) v = same s _ (isolate-Quiet s c k x)
  Step-Effect {s} (intercept_step c k x h) v = same s _ (intercept-Quiet s c k x)
  Step-Effect {s} (on_step c n fn h) v = same s _ (on-Quiet s c n fn)
  Step-Effect {s} (emit_step n args) v = same s _ (emit-Quiet s n args)
  Step-Effect {s} (provide_step c k x h) v = same s _ (provide-Quiet r s c k x)
  Step-Effect {s} (withdraw_step pk e) v = same s _ (run_inverse-Quiet outcome s (unprovide pk e))
  Step-Effect {s} (effect_step c i h) v = same s _ (effect-Quiet outcome s c i)
  Step-Effect {s} (release_step c h) v = same s _ (unwind-Quiet outcome s c)
  Step-Effect {s} (load_step c comp h) v = born c comp refl
  Step-Effect {s} (dispose_step f h) v = turns (Cycles-same s _ (λ g. ground arith))
  Step-Effect {s} orchestrate_step v =
      turns (orchestrate-Cycles outcome s (Reach-IsSound r outcome returns s v))
  Step-Effect {s} (start_apply_step f) v = same s _ (start_apply-Quiet s f)
  Step-Effect {s} (finish_apply_step f i e h) v = turns (finish_apply-Cycles s f i e)
  Step-Effect {s} (finish_unwind_step f) v = turns (end_unwind-Cycles outcome s f _)
  Step-Effect {s} shutdown_step v = turns (Cycles-same s _ (λ g. ground arith))
  Step-Effect {s} (close_step c h) v = same s _ (close-Quiet outcome s c)

  -- A fiber that has its number.
  Effect-Trail : (s t : Shared) (g : ℕ) → Effect s t → g ≤ s.seq → Trail (life s g) (life t g)
  Effect-Trail s t g (turns w) h = w.trails g
  Effect-Trail s t g (born c comp e) h =
      subst (λ u. Trail (life s g) (life u g)) e
        (subst (Trail (life s g)) (sym ((load-life s c comp g).1 (λ e. omega arith))) stay)

  record Alive (s t : Shared) (g : ℕ) : Type 0 where
    reached : Reach r outcome returns t
    numbered : g ≤ t.seq
    trail : Trail (life s g) (life t g)

  Run-Alive :
      {s t : Shared} (g : ℕ)
      → Reach r outcome returns s
      → Run r outcome returns s t
      → g ≤ s.seq
      → Alive s t g
  Run-Alive g v stop h = record { reached = v; numbered = h; trail = stay }
  Run-Alive {s} g v (go {t} {u} p q) h =
      let a = Run-Alive g v p h in
      let n = (Step-Calls r outcome returns 0 (omega arith) q).seq in
      record {
        reached = step a.reached q;
        numbered = omega (arith, a.numbered, n);
        trail = Trail-trans a.trail (Effect-Trail t u g (Step-Effect q a.reached) a.numbered);
      }

  pub Run-Trail :
      (s t : Shared) (g : ℕ)
      → Reach r outcome returns s
      → Run r outcome returns s t
      → g ≤ s.seq
      → Trail (life s g) (life t g)
  Run-Trail s t g v p h = (Run-Alive g v p h).trail

  -- In an application, whatever inverses Apply returns, a fiber that has failed or is gone keeps
  -- its state and its flags whatever steps follow.
  pub Run-final :
      (s t : Shared) (g : ℕ)
      → Reach r outcome returns s
      → Run r outcome returns s t
      → g ≤ s.seq
      → is_terminal (life s g).state ≡ true
      → life t g ≡ life s g
  Run-final s t g v p h e = Trail-final (Run-Trail s t g v p h) e

  lives : {s : Shared} (g : ℕ) → Reach r outcome returns s → Lived s g
  unfolding new
  lives g begin = inl stay
  lives g (step {s} {t} p q) = Effect-Lived s t g (Step-Effect q p) (lives g p)
