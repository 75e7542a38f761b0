-- ===== src/Orchestrator/Settle.antt =====
-- The rounds of `settle`: they keep the invariant, they come to an end, and at the end every fiber
-- is where its dependencies put it.
use stc_go.Base.{
  ℕ, zero, suc, ◌≡◌, refl, sym, subst, ◌∙◌, ◌⊎◌, inl, inr, Bool, true, false, ◌&&◌, not, some, List,
  [], ◌∷◌, arith, All, if◌then◌else◌, Bool-cases,
}
use stc_go.Base.Sort.{contains, sort, contains-delete_key, All-sort, All-contains}
use stc_go.Store.{FiberState, Shared}
use stc_go.Store
use stc_go.Fiber.{deps_satisfied, dep_stale, set_state}
use stc_go.Orchestrator.{
  settle_in, settle_fiber, settle_round, settle_with, request_dispose, remove_fiber,
}
use stc_go.Orchestrator.Frames.{
  life, begin_load-life, begin_unload-life, begin_load-Spawned, begin_unload-Spawned,
}
use stc_go.Orchestrator.Tokens.{is_terminal, is_resting, request_dispose-Inv}
use stc_go.Orchestrator.Invariant.{
  IsSound, Taken, IsSound-if, begin_unload-IsSound, begin_load-IsSound, remove-IsSound,
  Taken-set_fiber, clash,
}

-- A fiber of the snapshot stays registered until it has ended.
abbrev pub Listed : Shared → ℕ → Type 0
Listed s f = (contains f s.registry ≡ true) ⊎ (is_terminal (life s f).state ≡ true)

resting-Taken :
    (s : Shared) (f : ℕ) → is_resting (life s f).state ≡ true → IsSound s → Listed s f → Taken s f
resting-Taken s f e v l = record {
  idle = ground (arith, v f);
  member = ground arith;
  others = λ g ne. v g;
}

resting_failing :
    (s : Shared) (f : ℕ)
    → is_resting (life s f).state ≡ true
    → IsSound s
    → (life s f).failing ≡ false
resting_failing s f e v = ground (arith, v f)

still :
    (s : Shared) (f : ℕ) → (life (request_dispose s f) f).failing ≡ true → (life s f).failing ≡ true
still s f k = ground arith

either :
    (b : Bool) (x y : Bool × Shared)
    → IsSound x.1
    → IsSound y.1
    → IsSound (if◌then◌else◌ {A = Bool × Shared} b x y).1
either true x y p q = p
either false x y p q = q

settle_in-IsSound :
    (st : FiberState) (b : Bool) (s : Shared) (f : ℕ)
    → (life s f).state ≡ st
    → IsSound s
    → Listed s f
    → IsSound (settle_in st b s f).1
unfolding settle_in
settle_in-IsSound Store.pending b s f e v l =
    let t = resting-Taken s f (rw e refl) v l in
    let h = resting_failing s f (rw e refl) v in
    either (b && not (life s f).disposing) _ _
      (remove-IsSound _ f (Taken-set_fiber s f _ t) Store.gone refl
        (λ k. absurd (clash h (still s f k))))
      (either (not b && deps_satisfied s f) _ _ (begin_load-IsSound s f t h) v)
settle_in-IsSound Store.active b s f e v l =
    let t = resting-Taken s f (rw e refl) v l in
    either (b && not (life s f).disposing) _ _ (begin_unload-IsSound _ f (Taken-set_fiber s f _ t))
      (either (not b && (if deps_satisfied s f then dep_stale s f else true)) _ _
        (begin_unload-IsSound s f t) v)
settle_in-IsSound Store.loading b s f e v l =
    IsSound-if b (λ _. λ g. request_dispose-Inv s s.orch.inbox f g (λ p. ground arith) (v g))
      (λ _. v)
settle_in-IsSound Store.unloading b s f e v l =
    IsSound-if b (λ _. λ g. request_dispose-Inv s s.orch.inbox f g (λ p. ground arith) (v g))
      (λ _. v)
settle_in-IsSound Store.failed b s f e v l = v
settle_in-IsSound Store.gone b s f e v l = v

-- Removing or reloading one fiber leaves every other listed.
settle_fiber-Listed :
    (b : Bool) (s : Shared) (f g : ℕ) → Listed s g → Listed (settle_fiber b s f).1 g
unfolding settle_fiber remove_fiber set_state
settle_fiber-Listed b s f g l = ground (
  arith,
  contains-delete_key f g s.registry,
  begin_load-life s f g,
  begin_unload-life s f g,
  begin_unload-life (request_dispose s f) f g,
  begin_load-Spawned s f,
  begin_unload-Spawned s f,
  begin_unload-Spawned (request_dispose s f) f,
)

settle_fiber-IsSound :
    (b : Bool) (s : Shared) (f : ℕ) → IsSound s → Listed s f → IsSound (settle_fiber b s f).1
unfolding settle_fiber
settle_fiber-IsSound b s f v l = settle_in-IsSound _ b s f refl v l

pub All-Listed :
    (b : Bool) (s : Shared) (f : ℕ) (fs : List ℕ)
    → All (Listed s) fs
    → All (Listed (settle_fiber b s f).1) fs
All-Listed b s f [] h = tt
All-Listed b s f (g ∷ gs) h = (settle_fiber-Listed b s f g h.0, All-Listed b s f gs h.1)

settle_round-IsSound :
    (b : Bool) (s : Shared) (fs : List ℕ) (ch : Bool)
    → IsSound s
    → All (Listed s) fs
    → IsSound (settle_round b s fs ch).1
unfolding settle_round
settle_round-IsSound b s [] ch v l = v
settle_round-IsSound b s (f ∷ fs) ch v l =
    let (c, t) = settle_fiber b s f in
    settle_round-IsSound b t fs (if c then true else ch) (settle_fiber-IsSound b s f v l.0)
      (All-Listed b s f fs l.1)

Listed-registry :
    (s : Shared) (fs : List ℕ) → All (λ f. contains f s.registry ≡ true) fs → All (Listed s) fs
Listed-registry s [] h = tt
Listed-registry s (f ∷ fs) h = (inl h.0, Listed-registry s fs h.1)

pub snapshot-Listed : (s : Shared) → All (Listed s) (sort s.registry)
snapshot-Listed s =
    Listed-registry s (sort s.registry)
      (All-sort _ s.registry (All-contains s.registry s.registry (λ a h. h)))

abbrev pub first_round : Shared → Bool × Shared
first_round s = settle_round s.orch.stopping s (sort s.registry) false

pub settle_next :
    (fuel : ℕ) (s : Shared)
    → (first_round s).0 ≡ true
    → settle_with (suc fuel) s ≡ settle_with fuel (first_round s).1
unfolding settle_with
settle_next fuel s c = rw (c, settle_with)

pub settle_done :
    (fuel : ℕ) (s : Shared)
    → (first_round s).0 ≡ false
    → settle_with (suc fuel) s ≡ some (first_round s).1
unfolding settle_with
settle_done fuel s c = rw (c, settle_with)

pub unsome {ℓ} : {A : Type ℓ} {a b : A} → some a ≡ some b → a ≡ b
unsome e = cc

-- What every round keeps, settling keeps.
pub settle_with-keeps {κ} :
    (P : Shared → Type κ)
    → ((s : Shared) → P s → P (first_round s).1)
    → (fuel : ℕ) (s u : Shared) → settle_with fuel s ≡ some u
    → P s
    → P u
settle_with-keeps P k zero s u e v = absurd (unfold settle_with in cc)
settle_with-keeps P k (suc fuel) s u e v = elim (Bool-cases (first_round s).0) [
  | inl c ↦ settle_with-keeps P k fuel (first_round s).1 u (sym (settle_next fuel s c) ∙ e) (k s v)
  | inr c ↦ subst P (unsome (sym (settle_done fuel s c) ∙ e)) (k s v)
]

-- Where every fiber meets the invariant and settle returns, every fiber meets it in the state that
-- it returns.
pub settle-IsSound : (fuel : ℕ) (s u : Shared) → settle_with fuel s ≡ some u → IsSound s → IsSound u
settle-IsSound =
    settle_with-keeps IsSound
      (λ s v. settle_round-IsSound s.orch.stopping s (sort s.registry) false v (snapshot-Listed s))
