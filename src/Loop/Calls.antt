-- ===== src/Loop/Calls.antt =====
-- The calls that an application makes on fibers, seen from the orchestrator: Load, Dispose and the
-- start of a shutdown.
use stc_go.Base.{
  ℕ, ◌+◌, ◌≡◌, refl, true, false, List, [], ◌∷◌, ◌++◌, arith, count_if, count_if-append,
}
use stc_go.Store.{Cmd, Component, Shared, send, is_inactive}
use stc_go.Store
use stc_go.Fiber.{load, dispose}
use stc_go.Orchestrator.Numbers.{IsUnborn}
use stc_go.Orchestrator.Tokens.{LoadFirst, is_applied, is_unwound, is_load, is_dispose}
use stc_go.Orchestrator.Invariant.{IsSound}
use stc_go.Loop.{begin_shutdown}
use stc_go.Loop.Ends.{LoadFirst-last}

LoadFirst-none :
    (f : ℕ) (q : List Cmd) (c : Cmd) → count_if (is_dispose f) q ≡ 0 → LoadFirst f (q ++ c ∷ [])
LoadFirst-none f [] c h = ((λ e. refl), tt)
LoadFirst-none f (x ∷ q) c h = ((λ e. absurd (ground arith)), LoadFirst-none f q c (ground arith))

-- A command that no fiber waits for may be queued at any time.
send-IsSound :
    (s : Shared) (c : Cmd)
    → ((g : ℕ) → is_applied g c ≡ false)
    → ((g : ℕ) → is_unwound g c ≡ false)
    → ((g : ℕ) → is_load g c ≡ false)
    → IsSound s
    → IsSound (send s c).1
unfolding send
send-IsSound s c a u l v = λ g. ground (
  arith,
  v g,
  a g,
  u g,
  l g,
  count_if-append (is_applied g) s.orch.inbox (c ∷ []),
  count_if-append (is_unwound g) s.orch.inbox (c ∷ []),
  count_if-append (is_load g) s.orch.inbox (c ∷ []),
  LoadFirst-last g s.orch.inbox c (l g),
)

-- Disposing of a fiber keeps the invariant of every fiber, at any time and however often.
pub dispose-IsSound : (s : Shared) (f : ℕ) → IsSound s → IsSound (dispose s f)
unfolding dispose
dispose-IsSound s f v = send-IsSound s (Store.dispose f) (λ g. refl) (λ g. refl) (λ g. refl) v

-- The start of a shutdown keeps the invariant of every fiber.
pub begin_shutdown-IsSound : (s : Shared) → IsSound s → IsSound (begin_shutdown s)
unfolding begin_shutdown
begin_shutdown-IsSound s v =
    send-IsSound (record s { orch = record s.orch { stopping = true } }) Store.service (λ g. refl)
      (λ g. refl) (λ g. refl) (λ g. ground (arith, v g))

-- Loading a component keeps the invariant of every fiber, whether the load is queued or refused,
-- as the new fiber's number was given to none before.
pub load-IsSound :
    (s : Shared) (c : ℕ) (comp : Component)
    → IsUnborn s (s.seq + 1)
    → IsSound s
    → IsSound (load s c comp).1
unfolding load is_inactive send
load-IsSound s c comp u v = λ g.
    let f = s.seq + 1 in
    ground (
      arith,
      v g,
      count_if-append (is_applied g) s.orch.inbox (Store.load f ∷ []),
      count_if-append (is_unwound g) s.orch.inbox (Store.load f ∷ []),
      count_if-append (is_load g) s.orch.inbox (Store.load f ∷ []),
      LoadFirst-none f s.orch.inbox (Store.load f),
      LoadFirst-last g s.orch.inbox (Store.load f),
    )
