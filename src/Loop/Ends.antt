-- ===== src/Loop/Ends.antt =====
-- The ends of the goroutines: the command that one sends takes its place in the invariant.
use stc_go.Base.{
  ℕ, ◌-◌, ◌+◌, ◌≡◌, refl, ap, ◌∙◌, Bool, true, false, Option, none, some, List, [], ◌∷◌, ◌++◌,
  arith, length, if◌then◌else◌, Option-cases, inl, inr, count_if, count_if-append, take_out,
}
use stc_go.Key.{Error}
use stc_go.Store.{Cmd, Inverse, Task, apply_task, unwind_task, Shared, send}
use stc_go.Store
use stc_go.Orchestrator.Tokens.{
  Inv, LoadFirst, is_apply, is_unwind, is_applied, is_unwound, is_load,
}
use stc_go.Orchestrator.Invariant.{IsSound, requeue}
use stc_go.Orchestrator.Quiet.{Quiet, Quiet-refl, Inv-Quiet}
use stc_go.Unwind.Silence.{unwind-Quiet}
use stc_go.Loop.{end_apply, finish_apply, unwind_context, end_unwind, finish_unwind}

pub LoadFirst-last :
    (f : ℕ) (q : List Cmd) (c : Cmd)
    → is_load f c ≡ false
    → LoadFirst f q
    → LoadFirst f (q ++ c ∷ [])
LoadFirst-last f [] c h l = ((λ e. refl), tt)
LoadFirst-last f (x ∷ q) c h l =
    (λ e. ground (arith, count_if-append (is_load f) q (c ∷ []), l.0 e), LoadFirst-last f q c h l.1)

-- The task that is taken out passes the test, and the counts of the others stay.
pub taken-count :
    (p q : Task → Bool) (ts rest : List Task) (t : Task)
    → take_out p ts ≡ some (t, rest)
    → (p t ≡ true) × (count_if q ts ≡ count_if q rest + (if q t then 1 else 0))
unfolding take_out
taken-count p q [] rest t e = cc
taken-count p q (x ∷ xs) rest t e = elim (Option-cases (take_out p xs)) [
  | inl o ↦ ground (arith, o)
  | inr ((y, r), o) ↦ ground (arith, o, taken-count p q xs r y o)
]

pub length-take_out :
    (p : Task → Bool) (ts rest : List Task) (t : Task)
    → take_out p ts ≡ some (t, rest)
    → length ts ≡ length rest + 1
unfolding take_out
length-take_out p [] rest t e = cc
length-take_out p (x ∷ xs) rest t e = elim (Option-cases (take_out p xs)) [
  | inl o ↦ ground (arith, o)
  | inr ((y, r), o) ↦ ground (arith, o, length-take_out p xs r y o)
]

-- A goroutine's end, for which its task is taken out and its command is queued.
ended :
    (s : Shared) (rest : List Task) (t : Task) (c : Cmd) (g : ℕ)
    → count_if (is_apply g) s.tasks ≡ count_if (is_apply g) rest + (if is_apply g t then 1 else 0)
    → count_if (is_unwind g) s.tasks
      ≡ count_if (is_unwind g) rest + (if is_unwind g t then 1 else 0)
    → is_applied g c ≡ is_apply g t
    → is_unwound g c ≡ is_unwind g t
    → is_load g c ≡ false
    → s.orch.exited ≡ false
    → Inv s s.orch.inbox g
    → Inv
        (send (record s { pending = s.pending - 1; tasks = rest }) c).1
        (send (record s { pending = s.pending - 1; tasks = rest }) c).1.orch.inbox
        g
unfolding send
ended s rest t c g a b ac bc l n v = rw n (
    ground (
      arith,
      count_if-append (is_applied g) s.orch.inbox (c ∷ []),
      count_if-append (is_unwound g) s.orch.inbox (c ∷ []),
      count_if-append (is_load g) s.orch.inbox (c ∷ []),
      LoadFirst-last g s.orch.inbox c l v.ordered,
    ))

apply_ended :
    (s : Shared) (f : ℕ) (i : Option Inverse) (e : Option Error) (o : Option (Task × List Task))
    → take_out (is_apply f) s.tasks ≡ o
    → s.orch.exited ≡ false
    → IsSound s
    → IsSound (end_apply s f i e o)
unfolding end_apply
apply_ended s f i e none p n v = v
apply_ended s f i e (some (unwind_task h c, rest)) p n v =
    absurd {A = IsSound _}
      (let (t, k) = taken-count (is_apply f) (is_apply f) s.tasks rest _ p in cc)
apply_ended s f i e (some (apply_task h c, rest)) p n v = λ g.
    let t : Task = apply_task h c in
    let (same, a) = taken-count (is_apply f) (is_apply g) s.tasks rest t p in
    ended s rest t (Store.applied f i e) g a
      (taken-count (is_apply f) (is_unwind g) s.tasks rest t p).1 (ground (arith, same)) refl refl n
      (v g)

-- While the loop runs, the end of an apply, with whatever it returned, keeps the invariant of
-- every fiber.
pub finish_apply-IsSound :
    (s : Shared) (f : ℕ) (i : Option Inverse) (e : Option Error)
    → s.orch.exited ≡ false
    → IsSound s
    → IsSound (finish_apply s f i e)
unfolding finish_apply
finish_apply-IsSound s f i e n v = apply_ended s f i e (take_out (is_apply f) s.tasks) refl n v

module _ (outcome : ℕ → Option Error) where
  pub context-Quiet : (s : Shared) (t : Task) → Quiet s (unwind_context outcome s t)
  unfolding unwind_context
  context-Quiet s (unwind_task f (some c)) = unwind-Quiet outcome s c
  context-Quiet s (unwind_task f none) = Quiet-refl s
  context-Quiet s (apply_task f c) = Quiet-refl s

  unwind_ended :
      (s : Shared) (f : ℕ) (o : Option (Task × List Task))
      → take_out (is_unwind f) s.tasks ≡ o
      → s.orch.exited ≡ false
      → IsSound s
      → IsSound (end_unwind outcome s f o)
  unfolding end_unwind
  unwind_ended s f none p n v = v
  unwind_ended s f (some (apply_task h c, rest)) p n v =
      absurd {A = IsSound _}
        (let (t, k) = taken-count (is_unwind f) (is_unwind f) s.tasks rest _ p in cc)
  unwind_ended s f (some (unwind_task h c, rest)) p n v = λ g.
      let t : Task = unwind_task h c in
      let u = unwind_context outcome s t in
      let w = context-Quiet s t in
      let (same, b) = taken-count (is_unwind f) (is_unwind g) s.tasks rest t p in
      ended u rest t (Store.unwound f) g
        (ap (count_if (is_apply g)) w.tasks
          ∙ (taken-count (is_unwind f) (is_apply g) s.tasks rest t p).1)
        (ap (count_if (is_unwind g)) w.tasks ∙ b) refl (ground (arith, same)) refl (w.exited ∙ n)
        (requeue w.inbox (Inv-Quiet s u w s.orch.inbox g (v g)))

  -- While the loop runs, the end of an unwinding, whatever the inverses return, keeps the
  -- invariant of every fiber.
  pub finish_unwind-IsSound :
      (s : Shared) (f : ℕ) → s.orch.exited ≡ false → IsSound s → IsSound (finish_unwind outcome s f)
  unfolding finish_unwind
  finish_unwind-IsSound s f n v = unwind_ended s f (take_out (is_unwind f) s.tasks) refl n v
