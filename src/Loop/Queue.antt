-- ===== src/Loop/Queue.antt =====
-- The inbox is a queue: every command in it is reached, after those before it and no others.
use stc_go.Base.{
  ℕ, zero, suc, ◌-◌, ◌+◌, ◌≡◌, sym, ap, ◌∙◌, subst, Bool-cases, false, inl, inr, Option, List, [],
  ◌∷◌, ◌++◌, length, arith,
}
use mathlib.Core.List.{append_assoc}
use stc_go.Key.{Error}
use stc_go.Store.{Cmd, Orchestrator, Shared}
use stc_go.Orchestrator.{handle}
use stc_go.Orchestrator.Quiet.{services}
use stc_go.Orchestrator.Flags.{handle-Adds}
use stc_go.Loop.{settle, try_exit, process, orchestrate}
use stc_go.Loop.Exit.{settle-orch, runs_command, orchestrate-IsDrained}

-- Rounds of the loop, one after another.
abbrev pub rounds : (ℕ → Option Error) → ℕ → Shared → Shared
rounds outcome zero s = s
rounds outcome (suc n) s = rounds outcome n (orchestrate outcome s)

exit-inbox : (s : Shared) → (try_exit s).orch.inbox ≡ s.orch.inbox
unfolding try_exit
exit-inbox s = ground arith

not_nil : (xs ys : List Cmd) (c : Cmd) → xs ++ c ∷ ys ≡ [] → ⊥
not_nil [] ys c e = cc
not_nil (x ∷ xs) ys c e = cc

module _ (outcome : ℕ → Option Error) where
  process-inbox :
      (s : Shared) (c : Cmd) (rest : List Cmd)
      → (n : ℕ) × ((process outcome s c rest).orch.inbox ≡ rest ++ services n)
  unfolding process
  process-inbox s c rest =
      let taken = record s { orch = record s.orch { inbox = rest; cmds = s.orch.cmds + 1 } } in
      let h = handle outcome taken c in
      let a = handle-Adds outcome taken c in
      let done = settle h in
      (
        a.wakes,
        exit-inbox (record done { orch = record done.orch { inflight = done.orch.inflight - 1 } })
            ∙ ap (λ (o : Orchestrator). o.inbox) (settle-orch h)
            ∙ a.inbox,
      )

  -- One round brings the next command to the head, and the loop goes on.
  round-next :
      (s : Shared) (d c : Cmd) (xs ys : List Cmd)
      → s.orch.exited ≡ false
      → s.orch.inbox ≡ d ∷ (xs ++ c ∷ ys)
      → (zs : List Cmd) × ((orchestrate outcome s).orch.inbox ≡ xs ++ c ∷ zs)
        × ((orchestrate outcome s).orch.exited ≡ false)
  round-next s d c xs ys n e =
      let (k, after) = process-inbox s d (xs ++ c ∷ ys) in
      let now : (orchestrate outcome s).orch.inbox ≡ xs ++ c ∷ (ys ++ services k) =
        subst (λ (t : Shared). t.orch.inbox ≡ xs ++ c ∷ (ys ++ services k))
          (runs_command outcome s d (xs ++ c ∷ ys) n e)
          (after ∙ append_assoc xs (c ∷ ys) (services k)) in
      (
        ys ++ services k,
        now,
        elim (Bool-cases (orchestrate outcome s).orch.exited) [
          | inl left ↦ absurd (
              not_nil xs (ys ++ services k) c
                (sym now ∙ (orchestrate-IsDrained outcome s n left).inbox))
          | inr on ↦ on
        ],
      )

  -- Where the event loop has not left, a command in the inbox stands at its head after as many
  -- rounds of the loop as there are commands before it, and the loop has not left then: the
  -- command is the next to be handled.
  pub rounds-reach :
      (s : Shared) (c : Cmd) (xs ys : List Cmd)
      → s.orch.exited ≡ false
      → s.orch.inbox ≡ xs ++ c ∷ ys
      → (zs : List Cmd) × ((rounds outcome (length xs) s).orch.inbox ≡ c ∷ zs)
        × ((rounds outcome (length xs) s).orch.exited ≡ false)
  rounds-reach s c [] ys n e = (ys, e, n)
  rounds-reach s c (d ∷ xs) ys n e =
      let (zs, now, on) = round-next s d c xs ys n e in
      rounds-reach (orchestrate outcome s) c xs zs on now
