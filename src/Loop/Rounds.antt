-- ===== src/Loop/Rounds.antt =====
-- A round of the event loop: one command, and `settle` until nothing changes.
use stc_go.Base.{
  ℕ, suc, ◌-◌, ◌+◌, ◌≡◌, refl, Option, List, [], ◌∷◌, arith, Option-cases, inl, inr, length,
}
use stc_go.Key.{Error}
use stc_go.Store.{Cmd, Orchestrator, Shared}
use stc_go.Orchestrator.{handle, settle_with}
use stc_go.Orchestrator.Invariant.{IsSound, IsSound-if, handle-IsSound}
use stc_go.Orchestrator.Settle.{settle-IsSound}
use stc_go.Loop.{settled, settle, try_exit, process, take_command, orchestrate}

-- The other fields of the orchestrator do not bear on the fibers.
same_inbox :
    (s : Shared) (o : Orchestrator)
    → o.inbox ≡ s.orch.inbox
    → IsSound s
    → IsSound (record s { orch = o })
same_inbox s o e v = λ g. ground (arith, v g)

settle-keeps : (s : Shared) → IsSound s → IsSound (settle s)
unfolding settle settled
settle-keeps s v = elim (Option-cases (settle_with (suc (length s.registry)) s)) [
  | inl e ↦ rw e v
  | inr (u, e) ↦ rw e (settle-IsSound (suc (length s.registry)) s u e v)
]

try_exit-keeps : (s : Shared) → IsSound s → IsSound (try_exit s)
unfolding try_exit
try_exit-keeps s v = λ g. ground (arith, v g)

process-IsSound :
    (outcome : ℕ → Option Error) (s : Shared) (c : Cmd) (rest : List Cmd)
    → s.orch.inbox ≡ c ∷ rest
    → IsSound s
    → IsSound (process outcome s c rest)
unfolding process
process-IsSound outcome s c rest e v =
    let taken = record s { orch = record s.orch { inbox = rest; cmds = s.orch.cmds + 1 } } in
    let done = settle (handle outcome taken c) in
    try_exit-keeps _ (
      same_inbox done (record done.orch { inflight = done.orch.inflight - 1 }) refl
        (settle-keeps (handle outcome taken c)
          (handle-IsSound outcome taken c (λ g. ground (arith, v g)))))

taken-IsSound :
    (outcome : ℕ → Option Error) (s : Shared) (q : List Cmd)
    → s.orch.inbox ≡ q
    → IsSound s
    → IsSound (take_command outcome s q)
unfolding take_command
taken-IsSound outcome s [] e v = v
taken-IsSound outcome s (c ∷ rest) e v = process-IsSound outcome s c rest e v

-- Where every fiber meets the invariant, a round of the event loop keeps it, whatever stands first
-- in the inbox, and also where the round is the last one or the loop has left.
pub orchestrate-IsSound :
    (outcome : ℕ → Option Error) (s : Shared) → IsSound s → IsSound (orchestrate outcome s)
unfolding orchestrate
orchestrate-IsSound outcome s v =
    IsSound-if s.orch.exited (λ _. v) (λ _. taken-IsSound outcome s s.orch.inbox refl v)
