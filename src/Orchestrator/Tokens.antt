-- ===== src/Orchestrator/Tokens.antt =====
-- The invariant of one fiber: its state says which goroutine or which command is under way for it.
use stc_go.Base.{
  ℕ, ◌+◌, ◌≤◌, ◌<◌, ◌≡◌, ◌≢◌, ◌⊎◌, Bool, true, false, List, [], ◌∷◌, arith, ◌==◌, count_if,
  count_if-append, if◌then◌else◌,
}
use stc_go.Base.Sort.{contains, contains-delete_key}
use stc_go.Store.{FiberState, Cmd, Task, apply_task, unwind_task, Shared}
use stc_go.Store
use stc_go.Fiber.{set_state}
use stc_go.Orchestrator.{remove_fiber, mount, begin_load, begin_unload, request_dispose}
use stc_go.Orchestrator.Frames.{
  life, begin_load-life, begin_unload-life, begin_load-Spawned, begin_unload-Spawned,
}

abbrev pub is_loading : FiberState → Bool
is_loading Store.loading = true
is_loading _ = false

abbrev pub is_unloading : FiberState → Bool
is_unloading Store.unloading = true
is_unloading _ = false

-- Pending or active: no goroutine is at work.
abbrev pub is_resting : FiberState → Bool
is_resting Store.pending = true
is_resting Store.active = true
is_resting _ = false

abbrev pub is_terminal : FiberState → Bool
is_terminal Store.failed = true
is_terminal Store.gone = true
is_terminal _ = false

abbrev pub is_ending : FiberState → Bool
is_ending Store.unloading = true
is_ending Store.failed = true
is_ending _ = false

abbrev pub is_apply : ℕ → Task → Bool
is_apply f (apply_task g c) = g == f
is_apply f (unwind_task g c) = false

abbrev pub is_unwind : ℕ → Task → Bool
is_unwind f (apply_task g c) = false
is_unwind f (unwind_task g c) = g == f

abbrev pub is_applied : ℕ → Cmd → Bool
is_applied f (Store.applied g i e) = g == f
is_applied f _ = false

abbrev pub is_unwound : ℕ → Cmd → Bool
is_unwound f (Store.unwound g) = g == f
is_unwound f _ = false

abbrev pub is_load : ℕ → Cmd → Bool
is_load f (Store.load g) = g == f
is_load f _ = false

abbrev pub is_dispose : ℕ → Cmd → Bool
is_dispose f (Store.dispose g) = g == f
is_dispose f _ = false

-- No command to load the fiber stands behind one to dispose of it.
abbrev pub LoadFirst : ℕ → List Cmd → Type 0
LoadFirst f [] = Unit {0}
LoadFirst f (c ∷ cs) = (is_dispose f c ≡ true → count_if (is_load f) cs ≡ 0) × LoadFirst f cs

-- `q` holds the commands that are queued.
pub record Inv (s : Shared) (q : List Cmd) (f : ℕ) : Type 0 where
  pub loading :
      count_if (is_apply f) s.tasks + count_if (is_applied f) q
      ≡ (if is_loading (life s f).state then 1 else 0)
  pub unloading :
      count_if (is_unwind f) s.tasks + count_if (is_unwound f) q
      ≡ (if is_unloading (life s f).state then 1 else 0)
  pub queued :
      0 < count_if (is_load f) q
      → ((life s f).state ≡ Store.pending) × (contains f s.registry ≡ false)
  pub single : count_if (is_load f) q ≤ 1
  pub member : contains f s.registry ≡ true → is_terminal (life s f).state ≡ false
  pub busy :
      contains f s.registry ≡ false
      → ((life s f).state ≡ Store.pending) ⊎ (is_terminal (life s f).state ≡ true)
  pub ordered : LoadFirst f q
  pub disposing : (life s f).disposing ≡ true → is_resting (life s f).state ≡ false
  pub failing : (life s f).failing ≡ true → is_ending (life s f).state ≡ true

-- Nothing is under way for a fiber, and no command will load it: the orchestrator has just taken its command.
pub record Idle (s : Shared) (q : List Cmd) (f : ℕ) : Type 0 where
  pub no_apply : count_if (is_apply f) s.tasks + count_if (is_applied f) q ≡ 0
  pub no_unwind : count_if (is_unwind f) s.tasks + count_if (is_unwound f) q ≡ 0
  pub no_load : count_if (is_load f) q ≡ 0
  pub ordered : LoadFirst f q

module _ (s : Shared) (q : List Cmd) (f g : ℕ) where
  pub begin_unload-Inv :
      (f ≡ g → Idle s q g × (contains g s.registry ≡ true))
      → (f ≢ g → Inv s q g)
      → Inv (begin_unload s f) q g
  begin_unload-Inv i v = ground (
    arith,
    begin_unload-life s f g,
    begin_unload-Spawned s f,
    count_if-append (is_apply g) s.tasks (unwind_task f (s.fibers f).ctx_ptr ∷ []),
    count_if-append (is_unwind g) s.tasks (unwind_task f (s.fibers f).ctx_ptr ∷ []),
  )

  pub begin_load-Inv :
      (f ≡ g → Idle s q g × (contains g s.registry ≡ true) × ((life s g).failing ≡ false))
      → (f ≢ g → Inv s q g)
      → Inv (begin_load s f) q g
  begin_load-Inv i v = ground (
    arith,
    begin_load-life s f g,
    begin_load-Spawned s f,
    count_if-append (is_apply g) s.tasks (apply_task f (mount s f).0 ∷ []),
    count_if-append (is_unwind g) s.tasks (apply_task f (mount s f).0 ∷ []),
  )

  pub remove_fiber-Inv :
      (st : FiberState)
      → is_terminal st ≡ true
      → ((life s f).failing ≡ true → st ≡ Store.failed)
      → (f ≡ g → Idle s q g)
      → (f ≢ g → Inv s q g)
      → Inv (remove_fiber s f st) q g
  unfolding remove_fiber set_state
  remove_fiber-Inv st t e i v = ground (arith, contains-delete_key f g s.registry)

  pub rest-Inv :
      (st : FiberState)
      → is_resting st ≡ true
      → (f ≡ g
          → Idle s q g
            × (contains g s.registry ≡ true)
            × ((life s g).failing ≡ false)
            × ((life s g).disposing ≡ false))
      → (f ≢ g → Inv s q g)
      → Inv (set_state s f st) q g
  unfolding set_state
  rest-Inv st t i v = ground arith

  pub request_dispose-Inv :
      (f ≡ g → is_resting (life s g).state ≡ false) → Inv s q g → Inv (request_dispose s f) q g
  request_dispose-Inv i v = ground arith
