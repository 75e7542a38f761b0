-- ===== src/Fiber/Waiting.antt =====
-- fiber.go: the loops of Ready and Gone, one turn at a time, as other goroutines run between the
-- turns. A channel of `waitCh` is told apart by the number of broadcasts before it.
use stc_go.Base.{ℕ, Bool, Option, none, some, if◌then◌else◌, ◌==◌}
use stc_go.Key.{Error, canceled}
use stc_go.Store.{Fiber, Shared}
use stc_go.Fiber.{ready_now, gone_now}

pub data Wait : Type 0 where
  ready_wait gone_wait : Wait

-- The switch over the fiber's state.
abbrev pub look : Wait → Fiber → Option (Option Error)
look ready_wait x = ready_now x
look gone_wait x = gone_now x

-- Where the caller stands: before `waitCh`, before the look at the state, in the select with the
-- channel that it subscribed to, or back with the result.
pub data Phase : Type 0 where
  subscribing : Phase
  checking blocked : ℕ → Phase
  returned : Option Error → Phase

unfoldable pub looked : ℕ → Option (Option Error) → Phase
looked n none = blocked n
looked n (some e) = returned e

-- One turn. `gives_up` tells whether the select takes the end of the caller's context.
unfoldable pub wait_turn : Wait → Shared → ℕ → Bool → Phase → Phase
unfolding looked
wait_turn k s f gives_up subscribing = checking s.fiber_wakes
wait_turn k s f gives_up (checking n) = looked n (look k (s.fibers f))
wait_turn k s f gives_up (blocked n) =
    if gives_up
    then returned (some canceled)
    else if s.fiber_wakes == n
    then blocked n
    else subscribing
wait_turn k s f gives_up (returned e) = returned e
