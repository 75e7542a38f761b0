-- ===== src/Loop/Turns.antt =====
-- A round of the event loop, whatever command it takes, makes only turns of the fibers' lives.
use stc_go.Base.{
  ℕ, suc, ◌-◌, ◌+◌, ◌≡◌, refl, inl, inr, Option, List, [], ◌∷◌, length, if_both, Option-cases,
  arith,
}
use stc_go.Key.{Error}
use stc_go.Store.{Cmd, Shared}
use stc_go.Orchestrator.{handle, settle_with}
use stc_go.Orchestrator.Invariant.{IsSound}
use stc_go.Orchestrator.Cycle.{Cycles, AllSane, Cycles-trans, Cycles-same, Cycles-AllSane}
use stc_go.Orchestrator.Turns.{settle_with-Cycles, handle-Cycles}
use stc_go.Loop.{settled, settle, try_exit, process, take_command, orchestrate}

pub IsSound-AllSane : (s : Shared) → IsSound s → AllSane s
IsSound-AllSane s v = record {
  sane = λ g. record { disposing = (v g).disposing; failing = (v g).failing };
}

settle-Cycles : (s : Shared) → AllSane s → Cycles s (settle s)
unfolding settle settled
settle-Cycles s v = elim (Option-cases (settle_with (suc (length s.registry)) s)) [
  | inl e ↦ rw e (Cycles-same s s (λ g. refl))
  | inr (u, e) ↦ rw e (settle_with-Cycles (suc (length s.registry)) s u e v)
]

exit-Cycles :
    (s : Shared)
    → Cycles s (try_exit (record s { orch = record s.orch { inflight = s.orch.inflight - 1 } }))
unfolding try_exit
exit-Cycles s = Cycles-same s _ (λ g. ground arith)

module _ (outcome : ℕ → Option Error) where
  process-Cycles :
      (s : Shared) (c : Cmd) (rest : List Cmd)
      → s.orch.inbox ≡ c ∷ rest
      → IsSound s
      → Cycles s (process outcome s c rest)
  unfolding process
  process-Cycles s c rest e v =
      let taken = record s { orch = record s.orch { inbox = rest; cmds = s.orch.cmds + 1 } } in
      let h = handle outcome taken c in
      let w : Cycles taken h = handle-Cycles outcome taken c (λ g. ground (arith, v g)) in
      let first : Cycles s taken = Cycles-same s taken (λ g. refl) in
      let both : Cycles s h = Cycles-trans first w in
      Cycles-trans {t = settle h}
        (Cycles-trans both (settle-Cycles h (Cycles-AllSane both (IsSound-AllSane s v))))
        (exit-Cycles (settle h))

  taken-Cycles :
      (s : Shared) (q : List Cmd)
      → s.orch.inbox ≡ q
      → IsSound s
      → Cycles s (take_command outcome s q)
  unfolding take_command
  taken-Cycles s [] e v = Cycles-same s s (λ g. refl)
  taken-Cycles s (c ∷ rest) e v = process-Cycles s c rest e v

  pub orchestrate-Cycles : (s : Shared) → IsSound s → Cycles s (orchestrate outcome s)
  unfolding orchestrate
  orchestrate-Cycles s v =
      if_both (Cycles s) s.orch.exited (Cycles-same s s (λ g. refl))
        (taken-Cycles s s.orch.inbox refl v)
