-- ===== src/Fiber/Listing.antt =====
-- Fibers: what the snapshot of the registry holds, and its order.
use stc_go.Base.{ℕ, ◌≡◌}
use stc_go.Base.Sort.{contains, sort-IsSorted, contains-sort}
use stc_go.Base.Sort.{IsSorted}
use stc_go.Store.{Shared}
use stc_go.Fiber.{fibers}

-- The snapshot of Fibers is in ascending order, and a fiber is in it exactly if it is registered.
pub fibers-IsSorted :
    (s : Shared) (f : ℕ) → IsSorted (fibers s) × (contains f (fibers s) ≡ contains f s.registry)
unfolding fibers
fibers-IsSorted s f = (sort-IsSorted s.registry, contains-sort f s.registry)
