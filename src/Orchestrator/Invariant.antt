-- ===== src/Orchestrator/Invariant.antt =====
-- Every command that the orchestrator handles keeps the invariant of every fiber.
use stc_go.Base.{
  ℕ, ◌≡◌, ◌≢◌, refl, sym, ap, subst, ◌∙◌, Bool, true, false, Option, none, some, List, ◌∷◌, arith,
  if◌then◌else◌,
}
use stc_go.Base.Sort.{contains, contains-add_key}
use stc_go.Key.{Error}
use stc_go.Trace
use stc_go.Store.{FiberState, Cmd, Inverse, Shared, Orchestrator, Fiber, set_fiber, trace_user}
use stc_go.Store
use stc_go.Fiber.{capture_deps, deps_satisfied, set_state}
use stc_go.Orchestrator.{
  handle, adopt, apply_result, loaded, unwound_result, dispose_in, begin_unload, begin_load,
  remove_fiber,
}
use stc_go.Orchestrator.Frames.{Life, life, begin_load-Spawned, begin_unload-Spawned}
use stc_go.Orchestrator.Tokens.{
  Inv, Idle, is_resting, is_terminal, begin_unload-Inv, begin_load-Inv, remove_fiber-Inv, rest-Inv,
  request_dispose-Inv,
}
use stc_go.Orchestrator.Quiet.{
  Quiet, Quiet-refl, Quiet-trans, Quiet-if, unchanged, Inv-Quiet, Idle-Quiet, run_inverse-Quiet,
  trace_user-Quiet, capture_deps-Quiet,
}

-- Every fiber meets the invariant, with the commands that are queued.
abbrev pub IsSound : Shared → Type 0
IsSound s = (g : ℕ) → Inv s s.orch.inbox g

pub requeue : {s : Shared} {q r : List Cmd} {g : ℕ} → q ≡ r → Inv s r g → Inv s q g
requeue {s} {q} {r} {g} e v = subst (λ x. Inv s x g) (sym e) v

-- The orchestrator has taken the last command for the fiber, and the others are as they should be.
pub record Taken (s : Shared) (f : ℕ) : Type 0 where
  pub idle : Idle s s.orch.inbox f
  pub member : contains f s.registry ≡ true
  pub others : (g : ℕ) → f ≢ g → Inv s s.orch.inbox g

module _ (s : Shared) (f : ℕ) (t : Taken s f) where
  mine : (g : ℕ) → f ≡ g → Idle s s.orch.inbox g × (contains g s.registry ≡ true)
  mine g e =
      subst (λ x. Idle s s.orch.inbox x × (contains x s.registry ≡ true)) e (t.idle, t.member)

  failing_at : (g : ℕ) → f ≡ g → (life s f).failing ≡ false → (life s g).failing ≡ false
  failing_at g e h = rw (← e) h

  pub begin_unload-IsSound : IsSound (begin_unload s f)
  begin_unload-IsSound g =
      requeue (ap (λ (o : Orchestrator). o.inbox) (begin_unload-Spawned s f).orch)
        (begin_unload-Inv s s.orch.inbox f g (mine g) (t.others g))

  pub begin_load-IsSound : (life s f).failing ≡ false → IsSound (begin_load s f)
  begin_load-IsSound h g =
      requeue (ap (λ (o : Orchestrator). o.inbox) (begin_load-Spawned s f).orch) (
        begin_load-Inv s s.orch.inbox f g (λ e. let (i, m) = mine g e in (i, m, failing_at g e h))
          (t.others g))

  pub rest-IsSound :
      (st : FiberState)
      → is_resting st ≡ true
      → (life s f).failing ≡ false
      → (life s f).disposing ≡ false
      → IsSound (set_state s f st)
  unfolding set_state
  rest-IsSound st r h d g =
      rest-Inv s s.orch.inbox f g st r
        (λ e. let (i, m) = mine g e in (i, m, failing_at g e h, rw (← e) d)) (t.others g)

  pub remove-IsSound :
      (st : FiberState)
      → is_terminal st ≡ true
      → ((life s f).failing ≡ true → st ≡ Store.failed)
      → IsSound (remove_fiber s f st)
  unfolding remove_fiber set_state
  remove-IsSound st e h g =
      remove_fiber-Inv s s.orch.inbox f g st e h (λ e. (mine g e).0) (t.others g)

Taken-Quiet : (s u : Shared) (f : ℕ) → Quiet s u → Taken s f → Taken u f
Taken-Quiet s u f w t = record {
  idle = subst (λ q. Idle u q f) (sym w.inbox) (Idle-Quiet s u w s.orch.inbox f t.idle);
  member = rw w.registry t.member;
  others = λ g ne. requeue w.inbox (Inv-Quiet s u w s.orch.inbox g (t.others g ne));
}

-- A fiber's own record does not bear on what is under way for it, nor on the other fibers.
pub Taken-set_fiber : (s : Shared) (f : ℕ) (x : Fiber) → Taken s f → Taken (set_fiber s f x) f
Taken-set_fiber s f x t = record {
  idle = ground (arith, t.idle);
  member = t.member;
  others = λ g ne. ground (arith, t.others g ne);
}

not_failing :
    (s : Shared) (q : List Cmd) (f : ℕ)
    → Inv s q f
    → (life s f).state ≡ Store.loading
    → (life s f).failing ≡ false
not_failing s q f v e = ground arith

-- The command at hand is the fiber's only one, and no goroutine is at work for it.
pub applied-Taken :
    (s : Shared) (f : ℕ) (i : Option Inverse) (e : Option Error)
    → ((g : ℕ) → Inv s (Store.applied f i e ∷ s.orch.inbox) g)
    → Taken s f × ((life s f).state ≡ Store.loading)
applied-Taken s f i e v = (
  record {
    idle = ground (arith, v f);
    member = ground (arith, v f);
    others = λ g ne. ground (arith, v g);
  },
  ground (arith, v f),
)

pub unwound-Taken :
    (s : Shared) (f : ℕ)
    → ((g : ℕ) → Inv s (Store.unwound f ∷ s.orch.inbox) g)
    → Taken s f × ((life s f).state ≡ Store.unloading)
unwound-Taken s f v = (
  record {
    idle = ground (arith, v f);
    member = ground (arith, v f);
    others = λ g ne. ground (arith, v g);
  },
  ground (arith, v f),
)

pub clash : {b : Bool} → b ≡ false → b ≡ true → ⊥
clash p q = cc

pub IsSound-if :
    {s t : Shared} (b : Bool)
    → (b ≡ true → IsSound s)
    → (b ≡ false → IsSound t)
    → IsSound (if b then s else t)
IsSound-if true p q = p refl
IsSound-if false p q = q refl

active-IsSound :
    (s : Shared) (f : ℕ)
    → (life s f).failing ≡ false
    → (life s f).disposing ≡ false
    → Taken s f
    → IsSound (set_state (capture_deps s f) f Store.active)
active-IsSound s f h d t =
    let w = capture_deps-Quiet s f in
    rest-IsSound (capture_deps s f) f (Taken-Quiet s (capture_deps s f) f w t) Store.active refl
      (ap (λ (l : Life). l.failing) (w.lives f) ∙ h)
      (ap (λ (l : Life). l.disposing) (w.lives f) ∙ d)

loaded-IsSound :
    (s : Shared) (f : ℕ) → (life s f).failing ≡ false → Taken s f → IsSound (loaded s f)
unfolding loaded
loaded-IsSound s f h t =
    IsSound-if (life s f).disposing (λ _. begin_unload-IsSound s f t)
      λ d.
        IsSound-if s.orch.stopping (λ _. begin_unload-IsSound s f t)
          λ _.
            IsSound-if (deps_satisfied s f) (λ _. active-IsSound s f h d t)
              λ _. begin_unload-IsSound s f t

apply_result-IsSound :
    (s : Shared) (f : ℕ) (e : Option Error)
    → (life s f).failing ≡ false
    → Taken s f
    → IsSound (apply_result s f e)
unfolding apply_result
apply_result-IsSound s f none h t = loaded-IsSound s f h t
apply_result-IsSound s f (some e) h t = begin_unload-IsSound _ f (Taken-set_fiber s f _ t)

unwound_result-IsSound : (s : Shared) (f : ℕ) → Taken s f → IsSound (unwound_result s f)
unfolding unwound_result
unwound_result-IsSound s f t =
    IsSound-if (life s f).failing (λ _. remove-IsSound s f t Store.failed refl (λ _. refl))
      λ h.
        let stays =
          λ (e : (life s f).failing ≡ true). absurd {A = Store.gone ≡ Store.failed} (clash h e) in
        IsSound-if (life s f).disposing (λ _. remove-IsSound s f t Store.gone refl stays)
          λ d.
            IsSound-if s.orch.stopping (λ _. remove-IsSound s f t Store.gone refl stays)
              λ _.
                IsSound-if (deps_satisfied s f) (λ _. begin_load-IsSound s f t h)
                  λ _. rest-IsSound s f t Store.pending refl h d

pub adopt-Quiet :
    (outcome : ℕ → Option Error) (s : Shared) (c : Option ℕ) (i : Option Inverse)
    → Quiet s (adopt outcome s c i)
unfolding adopt
adopt-Quiet outcome s c none = Quiet-refl s
adopt-Quiet outcome s none (some i) = Quiet-refl s
adopt-Quiet outcome s (some c) (some i) =
    Quiet-if (s.contexts c).unwinding (run_inverse-Quiet outcome s i) (
      unchanged s _ (λ g. refl) refl refl refl refl (omega arith) (omega arith)
        (λ o h. ground arith) refl refl)

pending_dispose-IsSound :
    (s : Shared) (f : ℕ)
    → ((g : ℕ) → Inv s (Store.dispose f ∷ s.orch.inbox) g)
    → (life s f).state ≡ Store.pending
    → IsSound (remove_fiber s f Store.gone)
unfolding remove_fiber set_state
pending_dispose-IsSound s f v p g =
    remove_fiber-Inv s s.orch.inbox f g Store.gone refl (λ h. absurd (ground (arith, v f)))
      (λ e. ground (arith, v f, v g)) (λ ne. ground (arith, v g))

active_dispose-Taken :
    (s : Shared) (f : ℕ)
    → ((g : ℕ) → Inv s (Store.dispose f ∷ s.orch.inbox) g)
    → (life s f).state ≡ Store.active
    → Taken s f
active_dispose-Taken s f v p = record {
  idle = ground (arith, v f);
  member = ground (arith, v f);
  others = λ g ne. ground (arith, v g);
}

dispose_in-IsSound :
    (s : Shared) (f : ℕ) (st : FiberState)
    → (life s f).state ≡ st
    → ((g : ℕ) → Inv s (Store.dispose f ∷ s.orch.inbox) g)
    → IsSound (dispose_in st s f)
unfolding dispose_in
dispose_in-IsSound s f Store.pending e v = pending_dispose-IsSound s f v e
dispose_in-IsSound s f Store.active e v =
    begin_unload-IsSound _ f (Taken-set_fiber s f _ (active_dispose-Taken s f v e))
dispose_in-IsSound s f Store.loading e v =
    λ g. request_dispose-Inv s s.orch.inbox f g (λ p. ground arith) (ground (arith, v g))
dispose_in-IsSound s f Store.unloading e v =
    λ g. request_dispose-Inv s s.orch.inbox f g (λ p. ground arith) (ground (arith, v g))
dispose_in-IsSound s f Store.failed e v = λ g. ground (arith, v g)
dispose_in-IsSound s f Store.gone e v = λ g. ground (arith, v g)

-- Whatever command is taken from the queue, and whatever it leads to, every fiber meets the
-- invariant afterwards, provided every fiber met it with that command at the head of the queue.
pub handle-IsSound :
    (outcome : ℕ → Option Error) (s : Shared) (c : Cmd)
    → ((g : ℕ) → Inv s (c ∷ s.orch.inbox) g)
    → IsSound (handle outcome s c)
unfolding handle
handle-IsSound outcome s (Store.load f) v =
    λ g. ground (arith, v g, v f, contains-add_key f g s.registry)
handle-IsSound outcome s (Store.dispose f) v = dispose_in-IsSound s f _ refl v
handle-IsSound outcome s (Store.applied f i e) v =
    let t = trace_user s Trace.applied f in
    let u = adopt outcome t (t.fibers f).ctx_ptr i in
    let w =
      Quiet-trans {t = t} (trace_user-Quiet s Trace.applied f)
        (adopt-Quiet outcome t (t.fibers f).ctx_ptr i) in
    let (taken, now) = applied-Taken s f i e v in
    apply_result-IsSound u f e
      (ap (λ (l : Life). l.failing) (w.lives f) ∙ not_failing s _ f (v f) now)
      (Taken-Quiet s u f w taken)
handle-IsSound outcome s (Store.unwound f) v =
    unwound_result-IsSound _ f
      (Taken-Quiet s _ f (trace_user-Quiet s Trace.unwound f) (unwound-Taken s f v).0)
handle-IsSound outcome s Store.service v = λ g. ground (arith, v g)
