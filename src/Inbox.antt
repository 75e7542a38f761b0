-- ===== src/Inbox.antt =====
-- orchestrator.go: `send` and the loop of `run` between the channel of bounded capacity and the lock
-- `sendMu`, one step of a goroutine at a time. What the commands are does not matter here.
pub mod Exit
pub mod Deadlock
use stc_go.Base.{ℕ, ◌+◌, ◌-◌, ◌<◌, ◌≡◌, Bool, true, false}

-- Who holds `sendMu`.
pub data Holder : Type 0 where
  free sender loop : Holder

-- Where the loop stands: before the receive, at a command, before the lock, with the lock, after
-- its end.
pub data Phase : Type 0 where
  receiving handling deciding locked left : Phase

pub record Gate : Type 0 where
  pub queue : ℕ
  pub inflight : ℕ
  pub holder : Holder
  pub phase : Phase
  pub stopping : Bool

-- `make(chan cmd, 4096)`
abbrev pub capacity : ℕ
capacity = 4096

-- The state that newOrchestrator makes, with the loop started.
abbrev pub opened : Gate
opened = record { queue = 0; inflight = 0; holder = free; phase = receiving; stopping = false }

-- The field `exited`, which the loop sets as it leaves.
abbrev pub exited : Phase → Bool
exited left = true
exited _ = false

-- Where the loop goes after a command.
abbrev pub after_command : Bool → Phase
after_command true = deciding
after_command false = receiving

module _ (room : ℕ) where
  pub data Move (s : Gate) : Gate → Type 0 where
    -- A call of send takes the lock and finds the loop running; it holds the lock until its
    -- command is in the channel.
    enter :
        s.holder ≡ free
        → exited s.phase ≡ false
        → Move s (record s { holder = sender; inflight = s.inflight + 1 })
    put :
        s.holder ≡ sender
        → s.queue < room
        → Move s (record s { holder = free; queue = s.queue + 1 })
    -- A call of send finds that the loop has left.
    refuse : s.holder ≡ free → exited s.phase ≡ true → Move s s
    -- shutdown
    stop : Move s (record s { stopping = true })
    receive :
        s.phase ≡ receiving
        → 0 < s.queue
        → Move s (record s { phase = handling; queue = s.queue - 1 })
    -- handle and settle are over.
    handled :
        s.phase ≡ handling
        → Move s (record s { phase = after_command s.stopping; inflight = s.inflight - 1 })
    lock :
        s.phase ≡ deciding → s.holder ≡ free → Move s (record s { phase = locked; holder = loop })
    -- quiescent may answer either; only where it holds the loop leaves.
    leave :
        s.phase ≡ locked
        → s.inflight ≡ 0
        → s.queue ≡ 0
        → Move s (record s { phase = left; holder = free })
    stay : s.phase ≡ locked → Move s (record s { phase = receiving; holder = free })

  pub data Moves (s : Gate) : Gate → Type 0 where
    here : Moves s s
    then : {t u : Gate} → Moves s t → Move t u → Moves s u
