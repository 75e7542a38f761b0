-- ===== src/Inbox/Exit.antt =====
-- The decision to leave loses no command.
use stc_go.Base.{ℕ, ◌+◌, ◌≡◌, refl, Bool, true, false, arith}
use stc_go.Inbox.{
  Holder, sender, loop, Phase, handling, locked, left, Gate, opened, exited, Move, enter, put,
  refuse, stop, receive, handled, lock, leave, stay, Moves, here, then,
}

abbrev sending : Holder → ℕ
sending sender = 1
sending _ = 0

abbrev at_work : Phase → ℕ
at_work handling = 1
at_work _ = 0

abbrev is_locked : Phase → Bool
is_locked locked = true
is_locked _ = false

abbrev is_loop : Holder → Bool
is_loop loop = true
is_loop _ = false

-- The counter tells the commands apart that are queued, at work or being sent; the loop holds the
-- lock where it decides, and nowhere else.
record IsCounted (s : Gate) : Type 0 where
  counted : s.inflight ≡ s.queue + at_work s.phase + sending s.holder
  excluded : is_loop s.holder ≡ is_locked s.phase
  empty : exited s.phase ≡ true → s.inflight ≡ 0

module _ (capacity : ℕ) where
  Move-IsCounted : {s t : Gate} → Move capacity s t → IsCounted s → IsCounted t
  Move-IsCounted (enter h e) v = ground arith
  Move-IsCounted (put h e) v = ground arith
  Move-IsCounted (refuse h e) v = v
  Move-IsCounted stop v = ground arith
  Move-IsCounted (receive p h) v = ground arith
  Move-IsCounted (handled p) v = ground arith
  Move-IsCounted (lock p h) v = ground arith
  Move-IsCounted (leave p i q) v = ground arith
  Move-IsCounted (stay p) v = ground arith

  Moves-IsCounted : {s t : Gate} → Moves capacity s t → IsCounted s → IsCounted t
  Moves-IsCounted here v = v
  Moves-IsCounted (then p q) v = Move-IsCounted q (Moves-IsCounted p v)

  -- In any interleaving of senders, of a shutdown and of the loop, each taking the lock, putting a
  -- command into the channel, receiving or deciding one step at a time, once the loop has left no
  -- command is in the channel, being sent or at work: the decision to leave loses none.
  pub exited-empty :
      (s : Gate) → Moves capacity opened s → s.phase ≡ left → (s.queue ≡ 0) × (s.inflight ≡ 0)
  exited-empty s p e =
      let v = Moves-IsCounted p (record { counted = refl; excluded = refl; empty = λ h. cc }) in
      ground (arith, v)
