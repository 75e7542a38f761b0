-- ===== src/Examples/Gates.antt =====
-- Runs of the inbox.
use stc_go.Base.{◌≡◌, refl, true, arith}
use stc_go.Inbox.{
  Gate, opened, left, Moves, here, then, enter, put, stop, receive, handled, lock, leave,
}
use stc_go.Inbox
use stc_go.Inbox.Exit.{exited-empty}
use stc_go.Inbox.Deadlock.{IsStuck, shutdown-IsStuck}

-- A shutdown with one command, its own.
abbrev closed : Gate
closed = record opened { inflight = 0; phase = left; stopping = true }

closes : Moves Inbox.capacity opened closed
closes =
    then
      (then
        (then
          (then (then (then (then here stop) (enter refl refl)) (put refl (omega arith)))
            (receive refl (omega arith)))
          (handled refl))
        (lock refl refl))
      (leave refl refl refl)

exited-empty_example : (closed.queue ≡ 0) × (closed.inflight ≡ 0)
exited-empty_example = exited-empty Inbox.capacity closed closes refl

shutdown-IsStuck_example :
    (s : Gate) × Moves Inbox.capacity opened s
    × (s.stopping ≡ true)
    × ((t : Gate) → Moves Inbox.capacity s t → IsStuck Inbox.capacity t)
shutdown-IsStuck_example = shutdown-IsStuck Inbox.capacity (omega arith)
