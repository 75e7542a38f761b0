-- ===== src/Orchestrator/Progress.antt =====
-- `settle` comes to an end, and at its end every fiber is where its dependencies put it.
use stc_go.Base.{
  ℕ, zero, suc, ◌≤◌, ◌≡◌, refl, sym, ap, subst, ◌∙◌, inl, inr, Bool, true, false, some, List, [],
  ◌∷◌, arith, All, count_if, length, if◌then◌else◌, Bool-cases,
}
use stc_go.Base.Sort.{contains, sort, All-of_sort, All-from, All-at}
use stc_go.Store.{FiberState, Orchestrator, Shared}
use stc_go.Store
use stc_go.Fiber.{deps_satisfied, dep_stale, set_state}
use stc_go.Orchestrator.{
  settle_in, settle_fiber, settle_round, settle_with, request_dispose, remove_fiber,
}
use stc_go.Orchestrator.Frames.{life, begin_load-Spawned, begin_unload-Spawned}
use stc_go.Orchestrator.Settle.{first_round, settle_next, settle_done, unsome}
use stc_go.Orchestrator.Work.{resting, settle_with-total}

-- A fiber that `settle` would leave where it is: what is pending lacks a dependency, and what is
-- active has all of them, as they were when it was loaded.
pub record IsSettled (s : Shared) (f : ℕ) : Type 0 where
  pub waits : (life s f).state ≡ Store.pending → deps_satisfied s f ≡ false
  pub served : (life s f).state ≡ Store.active → deps_satisfied s f ≡ true
  pub current : (life s f).state ≡ Store.active → dep_stale s f ≡ false

settle_in_idle :
    (st : FiberState) (s : Shared) (f : ℕ)
    → (life s f).state ≡ st
    → (settle_in st false s f).0 ≡ false
    → ((settle_in st false s f).1 ≡ s) × IsSettled s f
unfolding settle_in
settle_in_idle Store.pending s f e h = ground arith
settle_in_idle Store.active s f e h = ground arith
settle_in_idle Store.loading s f e h = ground arith
settle_in_idle Store.unloading s f e h = ground arith
settle_in_idle Store.failed s f e h = ground arith
settle_in_idle Store.gone s f e h = ground arith

settle_fiber_idle :
    (s : Shared) (f : ℕ)
    → (settle_fiber false s f).0 ≡ false
    → ((settle_fiber false s f).1 ≡ s) × IsSettled s f
unfolding settle_fiber
settle_fiber_idle s f h = settle_in_idle _ s f refl h

settle_round_idle :
    (s : Shared) (fs : List ℕ) (ch : Bool)
    → (settle_round false s fs ch).0 ≡ false
    → ((settle_round false s fs ch).1 ≡ s) × All (IsSettled s) fs × (ch ≡ false)
unfolding settle_round
settle_round_idle s [] ch h = (refl, tt, h)
settle_round_idle s (f ∷ fs) ch h =
    let (c, t) = settle_fiber false s f in
    let (same, all, flag) = settle_round_idle t fs (if c then true else ch) h in
    let (here, now) = settle_fiber_idle s f (ground arith) in
    (same ∙ here, (now, subst (λ x. All (IsSettled x) fs) here all), ground arith)

settle_fiber-orch : (b : Bool) (s : Shared) (f : ℕ) → (settle_fiber b s f).1.orch ≡ s.orch
unfolding settle_fiber remove_fiber set_state
settle_fiber-orch b s f = ground (
  arith,
  begin_load-Spawned s f,
  begin_unload-Spawned s f,
  begin_unload-Spawned (request_dispose s f) f,
)

settle_round-orch :
    (b : Bool) (s : Shared) (fs : List ℕ) (ch : Bool) → (settle_round b s fs ch).1.orch ≡ s.orch
unfolding settle_round
settle_round-orch b s [] ch = refl
settle_round-orch b s (f ∷ fs) ch =
    let (c, t) = settle_fiber b s f in
    settle_round-orch b t fs (if c then true else ch) ∙ settle_fiber-orch b s f

pub settle_with-orch : (fuel : ℕ) (s u : Shared) → settle_with fuel s ≡ some u → u.orch ≡ s.orch
settle_with-orch zero s u e = absurd (unfold settle_with in cc)
settle_with-orch (suc fuel) s u e =
    let kept = settle_round-orch s.orch.stopping s (sort s.registry) false in
    elim (Bool-cases (first_round s).0) [
      | inl c ↦ settle_with-orch fuel (first_round s).1 u (sym (settle_next fuel s c) ∙ e) ∙ kept
      | inr c ↦ ap (λ (x : Shared). x.orch) (sym (unsome (sym (settle_done fuel s c) ∙ e))) ∙ kept
    ]

last_round :
    (s : Shared) (b : Bool)
    → b ≡ false
    → (settle_round b s (sort s.registry) false).0 ≡ false
    → (f : ℕ) → contains f (settle_round b s (sort s.registry) false).1.registry ≡ true
    → IsSettled (settle_round b s (sort s.registry) false).1 f
last_round s true e h f m = cc
last_round s false e h f m =
    let (same, all, _) = settle_round_idle s (sort s.registry) false h in
    rw same (All-at _ s.registry f (All-of_sort _ s.registry all) (rw same at m))

settle_with-IsSettled :
    (fuel : ℕ) (s u : Shared)
    → settle_with fuel s ≡ some u
    → s.orch.stopping ≡ false
    → (f : ℕ) → contains f u.registry ≡ true
    → IsSettled u f
settle_with-IsSettled zero s u e st f m = absurd (unfold settle_with in cc)
settle_with-IsSettled (suc fuel) s u e st f m = elim (Bool-cases (first_round s).0) [
  | inl c ↦
      settle_with-IsSettled fuel (first_round s).1 u (sym (settle_next fuel s c) ∙ e)
        (ap (λ (x : Orchestrator). x.stopping)
            (settle_round-orch s.orch.stopping s (sort s.registry) false)
          ∙ st)
        f m
  | inr c ↦
      let same = unsome (sym (settle_done fuel s c) ∙ e) in
      subst (λ x. IsSettled x f) same
        (last_round s s.orch.stopping st c f
          (subst (λ (x : Shared). contains f x.registry ≡ true) (sym same) m))
]

work-le : (s : Shared) (fs : List ℕ) → count_if (resting s) fs ≤ length fs
work-le s [] = omega arith
work-le s (f ∷ fs) = ground (arith, work-le s fs)

-- Settle returns with one round of fuel more than there are registered fibers, whatever is under
-- way and whether or not the orchestrator is shutting down.
pub settle_returns :
    (s : Shared) → (u : Shared) × (settle_with (suc (length s.registry)) s ≡ some u)
settle_returns s =
    settle_with-total (suc (length s.registry)) s (omega (arith, work-le s s.registry))

-- Outside a shutdown, settle returns with one round of fuel more than there are registered fibers,
-- and in the state that it returns no registered fiber is pending with all its dependencies
-- provided, or active with one that is missing or replaced.
pub settle-total :
    (s : Shared)
    → s.orch.stopping ≡ false
    → (u : Shared) × (settle_with (suc (length s.registry)) s ≡ some u)
      × All (IsSettled u) u.registry
settle-total s st =
    let (u, e) = settle_returns s in
    (
      u,
      e,
      All-from (IsSettled u) u.registry (settle_with-IsSettled (suc (length s.registry)) s u e st),
    )
