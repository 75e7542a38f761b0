-- ===== src/Loop/Exit.antt =====
-- What a round of the event loop leaves: fibers that are settled, and at the end an empty system.
use stc_go.Base.{
  ℕ, suc, ◌-◌, ◌+◌, ◌≡◌, refl, sym, ap, ◌∙◌, subst, Bool, true, false, Option, List, [], ◌∷◌, arith,
  if◌then◌else◌, ◌==◌, ◌&&◌, Bool-cases, Option-cases, inl, inr, length, All,
}
use stc_go.Key.{Error}
use stc_go.Store.{Cmd, Orchestrator, Shared}
use stc_go.Fiber.{deps_satisfied, dep_stale, dependency}
use stc_go.Services.{resolve_external}
use stc_go.Scope.{realm_for_locked}
use stc_go.Orchestrator.{handle, settle_with}
use stc_go.Orchestrator.Flags.{Flags, flags, handle-flags}
use stc_go.Orchestrator.Progress.{IsSettled, settle-total, settle_with-orch}
use stc_go.Loop.{settled, settle, quiescent, try_exit, process, take_command, orchestrate}

pub settle-orch : (s : Shared) → (settle s).orch ≡ s.orch
unfolding settle settled
settle-orch s = elim (Option-cases (settle_with (suc (length s.registry)) s)) [
  | inl e ↦ rw e refl
  | inr (u, e) ↦ rw e (settle_with-orch (suc (length s.registry)) s u e)
]

settle-IsSettled :
    (s : Shared) → s.orch.stopping ≡ false → All (IsSettled (settle s)) (settle s).registry
unfolding settle settled
settle-IsSettled s st = let (u, e, h) = settle-total s st in rw e h

-- The orchestrator's own fields do not bear on whether a fiber is settled.
same-IsSettled :
    (s : Shared) (o : Orchestrator) (f : ℕ) → IsSettled s f → IsSettled (record s { orch = o }) f
unfolding deps_satisfied dep_stale dependency resolve_external realm_for_locked
same-IsSettled s o f h = record { waits = h.waits; served = h.served; current = h.current }

All-IsSettled :
    (s : Shared) (o : Orchestrator) (fs : List ℕ)
    → All (IsSettled s) fs
    → All (IsSettled (record s { orch = o })) fs
All-IsSettled s o [] h = tt
All-IsSettled s o (f ∷ fs) h = (same-IsSettled s o f h.0, All-IsSettled s o fs h.1)

exit-IsSettled :
    (s : Shared) → All (IsSettled s) s.registry → All (IsSettled (try_exit s)) (try_exit s).registry
unfolding try_exit
exit-IsSettled s h =
    let b =
      s.orch.stopping && (s.orch.inflight == 0 && (length s.orch.inbox == 0 && quiescent s)) in
    elim (Bool-cases b) [
      | inl e ↦ rw e (All-IsSettled s (record s.orch { exited = true }) s.registry h)
      | inr e ↦ rw e h
    ]

-- A system that is empty: the loop may leave.
pub record IsDrained (s : Shared) : Type 0 where
  pub stopping : s.orch.stopping ≡ true
  pub registry : s.registry ≡ []
  pub pending : s.pending ≡ 0
  pub inbox : s.orch.inbox ≡ []
  pub inflight : s.orch.inflight ≡ 0

try_exit-IsDrained :
    (s : Shared) → s.orch.exited ≡ false → (try_exit s).orch.exited ≡ true → IsDrained (try_exit s)
unfolding try_exit quiescent
try_exit-IsDrained s n e = ground arith

module _ (outcome : ℕ → Option Error) (s : Shared) (c : Cmd) (rest : List Cmd) where
  taken : Shared
  taken = record s { orch = record s.orch { inbox = rest; cmds = s.orch.cmds + 1 } }

  done : Shared
  unfolding taken
  done = settle (handle outcome taken c)

  done-flags : flags done ≡ flags s
  unfolding done taken
  done-flags =
      ap (λ (o : Orchestrator). (o.stopping, o.exited)) (settle-orch (handle outcome taken c))
      ∙ handle-flags outcome taken c

  process-IsSettled :
      s.orch.stopping ≡ false
      → All (IsSettled (process outcome s c rest)) (process outcome s c rest).registry
  unfolding process done taken
  process-IsSettled st = exit-IsSettled _ (
      All-IsSettled done (record done.orch { inflight = done.orch.inflight - 1 }) done.registry
        (settle-IsSettled (handle outcome taken c)
          (ap (λ (f : Flags). f.0) (handle-flags outcome taken c) ∙ st)))

  process-IsDrained :
      s.orch.exited ≡ false
      → (process outcome s c rest).orch.exited ≡ true
      → IsDrained (process outcome s c rest)
  unfolding process done taken
  process-IsDrained n e =
      try_exit-IsDrained
        (record done { orch = record done.orch { inflight = done.orch.inflight - 1 } })
        (ap (λ (f : Flags). f.1) done-flags ∙ n) e

unless : (b : Bool) (s t : Shared) → b ≡ false → (if b then s else t) ≡ t
unless true s t e = cc
unless false s t e = refl

-- A round of a loop that has not left.
runs :
    (outcome : ℕ → Option Error) (s : Shared)
    → s.orch.exited ≡ false
    → orchestrate outcome s ≡ take_command outcome s s.orch.inbox
unfolding orchestrate
runs outcome s n = unless s.orch.exited s (take_command outcome s s.orch.inbox) n

pub runs_command :
    (outcome : ℕ → Option Error) (s : Shared) (c : Cmd) (rest : List Cmd)
    → s.orch.exited ≡ false
    → s.orch.inbox ≡ c ∷ rest
    → process outcome s c rest ≡ orchestrate outcome s
unfolding take_command
runs_command outcome s c rest n e = sym (runs outcome s n ∙ ap (take_command outcome s) e)

-- Outside a shutdown, a round of the event loop that handles a command leaves no registered fiber
-- pending with all its dependencies provided, or active with one that is missing or replaced.
pub orchestrate-IsSettled :
    (outcome : ℕ → Option Error) (s : Shared) (c : Cmd) (rest : List Cmd)
    → s.orch.exited ≡ false
    → s.orch.stopping ≡ false
    → s.orch.inbox ≡ c ∷ rest
    → All (IsSettled (orchestrate outcome s)) (orchestrate outcome s).registry
orchestrate-IsSettled outcome s c rest n st e =
    subst (λ (t : Shared). All (IsSettled t) t.registry) (runs_command outcome s c rest n e)
      (process-IsSettled outcome s c rest st)

taken-IsDrained :
    (outcome : ℕ → Option Error) (s : Shared) (q : List Cmd)
    → s.orch.exited ≡ false
    → (take_command outcome s q).orch.exited ≡ true
    → IsDrained (take_command outcome s q)
unfolding take_command
taken-IsDrained outcome s [] n e = cc
taken-IsDrained outcome s (c ∷ rest) n e = process-IsDrained outcome s c rest n e

-- The event loop, where it had not left, leaves only while it is stopping, and then no fiber is
-- registered, no goroutine is in flight, and no command is queued or counted.
pub orchestrate-IsDrained :
    (outcome : ℕ → Option Error) (s : Shared)
    → s.orch.exited ≡ false
    → (orchestrate outcome s).orch.exited ≡ true
    → IsDrained (orchestrate outcome s)
orchestrate-IsDrained outcome s n e =
    let same = runs outcome s n in
    subst IsDrained (sym same)
      (taken-IsDrained outcome s s.orch.inbox n (sym (ap (λ (t : Shared). t.orch.exited) same) ∙ e))
