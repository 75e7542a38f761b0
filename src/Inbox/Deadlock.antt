-- ===== src/Inbox/Deadlock.antt =====
-- A full inbox during a shutdown: the sender with the lock waits for the loop, and the loop waits
-- for the lock.
use stc_go.Base.{ℕ, zero, suc, ◌+◌, ◌≤◌, ◌<◌, ◌≡◌, refl, subst, true, false, arith}
use stc_go.Inbox.{
  free, sender, handling, deciding, Gate, opened, Move, enter, put, refuse, stop, receive, handled,
  lock, leave, stay, Moves, here, then,
}

pub record IsStuck (capacity : ℕ) (s : Gate) : Type 0 where
  pub full : s.queue ≡ capacity
  pub waits : s.phase ≡ deciding
  pub held : s.holder ≡ sender

-- The loop is at its first command, and more were sent.
abbrev filling : ℕ → Gate
filling n = record {
  queue = n;
  inflight = n + 1;
  holder = free;
  phase = handling;
  stopping = false;
}

module _ (capacity : ℕ) where
  Move-IsStuck : {s t : Gate} → Move capacity s t → IsStuck capacity s → IsStuck capacity t
  Move-IsStuck (enter h e) v = ground (arith, v)
  Move-IsStuck (put h e) v = ground (arith, v)
  Move-IsStuck (refuse h e) v = v
  Move-IsStuck stop v = ground (arith, v)
  Move-IsStuck (receive p h) v = ground (arith, v)
  Move-IsStuck (handled p) v = ground (arith, v)
  Move-IsStuck (lock p h) v = ground (arith, v)
  Move-IsStuck (leave p i q) v = ground (arith, v)
  Move-IsStuck (stay p) v = ground (arith, v)

  Moves-IsStuck : {s t : Gate} → Moves capacity s t → IsStuck capacity s → IsStuck capacity t
  Moves-IsStuck here v = v
  Moves-IsStuck (then p q) v = Move-IsStuck q (Moves-IsStuck p v)

  fills : (n : ℕ) → 0 < capacity → n ≤ capacity → Moves capacity opened (filling n)
  fills zero h k =
      then (then (then here (enter refl refl)) (put refl h)) (receive refl (omega arith))
  fills (suc n) h k =
      let more : Moves capacity opened (filling (n + 1)) =
        then (then (fills n h (omega (arith, k))) (enter refl refl)) (put refl k) in
      subst (λ m. Moves capacity opened (filling m)) (omega arith) more

  -- Whatever the capacity of the channel, if it is not 0, a shutdown can come to a state from
  -- which on, whatever step is taken, the channel is full, a sender holds the lock and the loop
  -- waits for the lock: the loop never leaves.
  pub shutdown-IsStuck :
      0 < capacity
      → (s : Gate) × Moves capacity opened s
        × (s.stopping ≡ true)
        × ((t : Gate) → Moves capacity s t → IsStuck capacity t)
  shutdown-IsStuck h = (
    _,
    then (then (then (fills capacity h (omega arith)) (enter refl refl)) stop) (handled refl),
    refl,
    λ t p. Moves-IsStuck p (record { full = refl; waits = refl; held = refl }),
  )
