-- ===== src/Orchestrator/Work.antt =====
-- The work that settling has left: each round that changes something leaves less of it.
use stc_go.Base.{
  ℕ, zero, suc, ◌+◌, ◌≤◌, ◌<◌, ◌≡◌, refl, fun_ext, ◌∙◌, ◌⊎◌, inl, inr, Bool, true, false, ◌&&◌, not,
  some, List, [], ◌∷◌, arith, ◌==◌, All, count_if, if◌then◌else◌, Bool-cases,
}
use stc_go.Base.Sort.{contains, sort, delete_key, count_if_less, count_if-delete_key}
use stc_go.Store.{FiberState, Shared}
use stc_go.Store
use stc_go.Fiber.{deps_satisfied, dep_stale, set_state}
use stc_go.Orchestrator.{
  settle_in, settle_fiber, settle_round, settle_with, begin_unload, begin_load, request_dispose,
  remove_fiber,
}
use stc_go.Orchestrator.Frames.{
  life, begin_load-life, begin_unload-life, remove_fiber-life, begin_load-Spawned,
  begin_unload-Spawned,
}
use stc_go.Orchestrator.Tokens.{is_resting}
use stc_go.Orchestrator.Settle.{
  Listed, All-Listed, snapshot-Listed, first_round, settle_next, settle_done,
}

-- How many registered fibers are pending or active.
abbrev pub resting : Shared → ℕ → Bool
resting s f = is_resting (life s f).state

abbrev pub work : Shared → ℕ
work s = count_if (resting s) s.registry

-- What a step answers, and how much of the work it leaves.
abbrev Less : Shared → Bool × Shared → Type 0
Less s x = work x.1 + (if x.0 then 1 else 0) ≤ work s

Less-if :
    (s : Shared) (b : Bool) (x y : Bool × Shared)
    → Less s x
    → Less s y
    → Less s (if◌then◌else◌ {A = Bool × Shared} b x y)
Less-if s true x y p q = p
Less-if s false x y p q = q

-- A fiber that leaves the pending and active states takes one from the work.
count_if_less' :
    (s t : Shared) (f : ℕ)
    → ((g : ℕ) → resting t g ≡ (if f == g then false else resting s g))
    → resting s f ≡ true
    → contains f s.registry ≡ true
    → count_if (resting t) s.registry + 1 ≤ count_if (resting s) s.registry
count_if_less' s t f m r c = ground (arith, count_if_less f (resting s) (resting t) s.registry r m)

Listed-now : (s : Shared) (f : ℕ) → resting s f ≡ true → Listed s f → contains f s.registry ≡ true
Listed-now s f r l = ground arith

removed_registry :
    (s : Shared) (f : ℕ)
    → (remove_fiber (request_dispose s f) f Store.gone).registry ≡ delete_key f s.registry
unfolding remove_fiber set_state
removed_registry s f = refl

module _ (s : Shared) (f g : ℕ) where
  removed :
      resting (remove_fiber (request_dispose s f) f Store.gone) g
      ≡ (if f == g then false else resting s g)
  removed = ground (arith, remove_fiber-life (request_dispose s f) f Store.gone g)

  loading_now : resting (begin_load s f) g ≡ (if f == g then false else resting s g)
  loading_now = ground (arith, begin_load-life s f g)

  unloading_now : resting (begin_unload s f) g ≡ (if f == g then false else resting s g)
  unloading_now = ground (arith, begin_unload-life s f g)

  disposed :
      resting (begin_unload (request_dispose s f) f) g ≡ (if f == g then false else resting s g)
  disposed = ground (arith, begin_unload-life (request_dispose s f) f g)

resting-request : (s : Shared) (f : ℕ) → resting (request_dispose s f) ≡ resting s
resting-request s f = fun_ext λ g. ground arith

asked : (s : Shared) (f : ℕ) (b : Bool) → Less s (false, (if b then request_dispose s f else s))
asked s f true = rw (resting-request s f) (omega arith)
asked s f false = omega arith

leave :
    (s t : Shared) (f : ℕ)
    → ((g : ℕ) → resting t g ≡ (if f == g then false else resting s g))
    → resting s f ≡ true
    → contains f s.registry ≡ true
    → (t.registry ≡ s.registry) ⊎ (t.registry ≡ delete_key f s.registry)
    → work t + 1 ≤ work s
leave s t f m r c (inl e) = rw e (omega (arith, count_if_less' s t f m r c))
leave s t f m r c (inr e) =
    rw e (omega (arith, count_if-delete_key f (resting t) s.registry, count_if_less' s t f m r c))

settle_in-work :
    (st : FiberState) (b : Bool) (s : Shared) (f : ℕ)
    → (life s f).state ≡ st
    → Listed s f
    → Less s (settle_in st b s f)
unfolding settle_in
settle_in-work Store.pending b s f e l =
    Less-if s (b && not (life s f).disposing) _ _
      (leave s (remove_fiber (request_dispose s f) f Store.gone) f (removed s f) (rw e refl)
        (Listed-now s f (rw e refl) l) (inr (removed_registry s f)))
      (Less-if s (not b && deps_satisfied s f) _ _
        (leave s (begin_load s f) f (loading_now s f) (rw e refl) (Listed-now s f (rw e refl) l)
          (inl (begin_load-Spawned s f).registry))
        (omega arith))
settle_in-work Store.active b s f e l =
    Less-if s (b && not (life s f).disposing) _ _
      (leave s (begin_unload (request_dispose s f) f) f (disposed s f) (rw e refl)
        (Listed-now s f (rw e refl) l)
        (inl (begin_unload-Spawned (request_dispose s f) f).registry))
      (Less-if s (not b && (if deps_satisfied s f then dep_stale s f else true)) _ _
        (leave s (begin_unload s f) f (unloading_now s f) (rw e refl) (Listed-now s f (rw e refl) l)
          (inl (begin_unload-Spawned s f).registry))
        (omega arith))
settle_in-work Store.loading b s f e l = asked s f b
settle_in-work Store.unloading b s f e l = asked s f b
settle_in-work Store.failed b s f e l = omega arith
settle_in-work Store.gone b s f e l = omega arith

settle_fiber-work : (b : Bool) (s : Shared) (f : ℕ) → Listed s f → Less s (settle_fiber b s f)
unfolding settle_fiber
settle_fiber-work b s f l = settle_in-work _ b s f refl l

settle_round-work :
    (b : Bool) (s : Shared) (fs : List ℕ) (ch : Bool)
    → All (Listed s) fs
    → work (settle_round b s fs ch).1 + (if (settle_round b s fs ch).0 then 1 else 0)
      ≤ work s + (if ch then 1 else 0)
unfolding settle_round
settle_round-work b s [] ch l = omega arith
settle_round-work b s (f ∷ fs) ch l =
    let (c, t) = settle_fiber b s f in
    ground (
      arith,
      settle_fiber-work b s f l.0,
      settle_round-work b t fs (if c then true else ch) (All-Listed b s f fs l.1),
    )

-- Each round that changes something takes a fiber out of rest for good, so the rounds end.
pub settle_with-total :
    (fuel : ℕ) (s : Shared) → work s < fuel → (u : Shared) × (settle_with fuel s ≡ some u)
settle_with-total zero s h = elim h [ ]
settle_with-total (suc fuel) s h = elim (Bool-cases (first_round s).0) [
  | inl c ↦
      let less = settle_round-work s.orch.stopping s (sort s.registry) false (snapshot-Listed s) in
      let (u, e) = settle_with-total fuel (first_round s).1 (ground arith) in
      (u, settle_next fuel s c ∙ e)
  | inr c ↦ ((first_round s).1, settle_done fuel s c)
]
