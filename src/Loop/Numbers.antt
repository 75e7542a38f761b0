-- ===== src/Loop/Numbers.antt =====
-- The numbers of fibers over the rounds of the event loop, the ends of the goroutines and the calls
-- from outside.
use stc_go.Base.{
  ℕ, suc, ◌+◌, ◌-◌, ◌≤◌, ◌≡◌, ◌≢◌, refl, ap, ◌∙◌, Bool, true, false, Option, none, some, List, [],
  ◌∷◌, arith, length, count_if-append, if_both, take_out, Option-cases, inl, inr,
}
use stc_go.Key.{Error}
use stc_go.Store.{Inverse, Cmd, Task, Component, Orchestrator, Shared, send, is_inactive}
use stc_go.Store
use stc_go.Fiber.{load, dispose}
use stc_go.Orchestrator.{handle, settle_with}
use stc_go.Orchestrator.Tokens.{is_apply, is_unwind, is_applied, is_unwound, is_load, is_dispose}
use stc_go.Orchestrator.Numbers.{IsBorn, Works, Works-IsBorn, Works-trans, Quiet-Works}
use stc_go.Orchestrator.Born.{given_out, settle_with-IsBorn, named, handle-Works}
use stc_go.Loop.{
  settled, settle, try_exit, process, take_command, orchestrate, end_apply, finish_apply,
  unwind_context, end_unwind, finish_unwind, begin_shutdown,
}
use stc_go.Loop.Ends.{taken-count, length-take_out, context-Quiet}

settle-IsBorn : (s : Shared) → IsBorn s → IsBorn (settle s)
unfolding settle settled
settle-IsBorn s v = elim (Option-cases (settle_with (suc (length s.registry)) s)) [
  | inl e ↦ rw e v
  | inr (u, e) ↦ rw e (settle_with-IsBorn (suc (length s.registry)) s u e v)
]

-- The flags and counters of the orchestrator do not bear on the numbers.
same-IsBorn :
    (s : Shared) (o : Orchestrator)
    → o.inbox ≡ s.orch.inbox
    → IsBorn s
    → IsBorn (record s { orch = o })
same-IsBorn s o e v = record {
  unborn = λ g k. let u = v.unborn g k in ground (arith, u);
  counted = v.counted;
}

try_exit-IsBorn : (s : Shared) → IsBorn s → IsBorn (try_exit s)
unfolding try_exit
try_exit-IsBorn s v = if_both IsBorn _ (same-IsBorn s (record s.orch { exited = true }) refl v) v

-- The command that stands first names a fiber whose number was given out.
first_named :
    (s : Shared) (c : Cmd) (rest : List Cmd)
    → s.orch.inbox ≡ c ∷ rest
    → IsBorn s
    → named c s.seq ≤ s.seq
first_named s (Store.load f) rest e v = given_out s f v (λ u. ground (arith, u))
first_named s (Store.dispose f) rest e v = given_out s f v (λ u. ground (arith, u))
first_named s (Store.applied f i x) rest e v = given_out s f v (λ u. ground (arith, u))
first_named s (Store.unwound f) rest e v = given_out s f v (λ u. ground (arith, u))
first_named s Store.service rest e v = omega arith

process-IsBorn :
    (outcome : ℕ → Option Error) (s : Shared) (c : Cmd) (rest : List Cmd)
    → s.orch.inbox ≡ c ∷ rest
    → IsBorn s
    → IsBorn (process outcome s c rest)
unfolding process
process-IsBorn outcome s c rest e v =
    let taken = record s { orch = record s.orch { inbox = rest; cmds = s.orch.cmds + 1 } } in
    let left : IsBorn taken = record {
      unborn = λ g k. let u = v.unborn g k in ground (arith, u);
      counted = v.counted;
    } in
    let done = settle (handle outcome taken c) in
    try_exit-IsBorn _ (
      same-IsBorn done (record done.orch { inflight = done.orch.inflight - 1 }) refl
        (settle-IsBorn (handle outcome taken c) (
          Works-IsBorn taken (handle outcome taken c) (named c s.seq) (first_named s c rest e v)
            (handle-Works outcome taken c s.seq) left)))

taken-IsBorn :
    (outcome : ℕ → Option Error) (s : Shared) (q : List Cmd)
    → s.orch.inbox ≡ q
    → IsBorn s
    → IsBorn (take_command outcome s q)
unfolding take_command
taken-IsBorn outcome s [] e v = v
taken-IsBorn outcome s (c ∷ rest) e v = process-IsBorn outcome s c rest e v

pub orchestrate-IsBorn :
    (outcome : ℕ → Option Error) (s : Shared) → IsBorn s → IsBorn (orchestrate outcome s)
unfolding orchestrate
orchestrate-IsBorn outcome s v =
    if_both IsBorn s.orch.exited v (taken-IsBorn outcome s s.orch.inbox refl v)

-- A command that is sent for a fiber concerns no other.
send-Works :
    (s : Shared) (c : Cmd) (f : ℕ)
    → ((g : ℕ)
        → f ≢ g
        → (is_applied g c ≡ false)
          × (is_unwound g c ≡ false)
          × (is_load g c ≡ false)
          × (is_dispose g c ≡ false))
    → Works s (send s c).1 f
unfolding send
send-Works s c f h = record {
  seq = ground arith;
  others = λ g ne v. ground (
    arith,
    v,
    h g ne,
    count_if-append (is_applied g) s.orch.inbox (c ∷ []),
    count_if-append (is_unwound g) s.orch.inbox (c ∷ []),
    count_if-append (is_load g) s.orch.inbox (c ∷ []),
    count_if-append (is_dispose g) s.orch.inbox (c ∷ []),
  );
  counted = λ e. ground arith;
  woken = λ g. record { calls = ground arith; state = inl (ground arith) };
}

pub dispose-IsBorn : (s : Shared) (f : ℕ) → f ≤ s.seq → IsBorn s → IsBorn (dispose s f)
unfolding dispose
dispose-IsBorn s f h v =
    Works-IsBorn s _ f h (send-Works s (Store.dispose f) f (λ g ne. ground arith)) v

pub begin_shutdown-IsBorn : (s : Shared) → IsBorn s → IsBorn (begin_shutdown s)
unfolding begin_shutdown
begin_shutdown-IsBorn s v =
    let t = record s { orch = record s.orch { stopping = true } } in
    Works-IsBorn t _ s.seq (omega arith)
      (send-Works t Store.service s.seq (λ g ne. (refl, refl, refl, refl)))
      (same-IsBorn s (record s.orch { stopping = true }) refl v)

pub load-IsBorn : (s : Shared) (c : ℕ) (comp : Component) → IsBorn s → IsBorn (load s c comp).1
unfolding load is_inactive send
load-IsBorn s c comp v = record {
  unborn = λ g k.
      let f = s.seq + 1 in
      let u = v.unborn g (ground arith) in
      ground (
        arith,
        u,
        count_if-append (is_applied g) s.orch.inbox (Store.load f ∷ []),
        count_if-append (is_unwound g) s.orch.inbox (Store.load f ∷ []),
        count_if-append (is_load g) s.orch.inbox (Store.load f ∷ []),
        count_if-append (is_dispose g) s.orch.inbox (Store.load f ∷ []),
      );
  counted = ground (arith, v.counted);
}

-- The end of a goroutine: its task leaves, and its command is queued.
ended-Works :
    (s : Shared) (p : Task → Bool) (rest : List Task) (t : Task) (c : Cmd) (f : ℕ)
    → take_out p s.tasks ≡ some (t, rest)
    → ((g : ℕ)
        → f ≢ g
        → (is_applied g c ≡ false)
          × (is_unwound g c ≡ false)
          × (is_load g c ≡ false)
          × (is_dispose g c ≡ false))
    → Works s (send (record s { pending = s.pending - 1; tasks = rest }) c).1 f
ended-Works s p rest t c f e h =
    let u = record s { pending = s.pending - 1; tasks = rest } in
    Works-trans {t = u}
      (record {
        seq = omega arith;
        others = λ g ne v. ground (
          arith,
          v,
          taken-count p (is_apply g) s.tasks rest t e,
          taken-count p (is_unwind g) s.tasks rest t e,
        );
        counted = λ k. omega (arith, k, length-take_out p s.tasks rest t e);
        woken = λ g. record { calls = omega arith; state = inl refl };
      })
      (send-Works u c f h)

apply_ended-IsBorn :
    (s : Shared) (f : ℕ) (i : Option Inverse) (x : Option Error) (o : Option (Task × List Task))
    → take_out (is_apply f) s.tasks ≡ o
    → IsBorn s
    → IsBorn (end_apply s f i x o)
unfolding end_apply
apply_ended-IsBorn s f i x none e v = v
apply_ended-IsBorn s f i x (some (t, rest)) e v =
    Works-IsBorn s _ f
      (given_out s f v
        (λ u. ground (arith, u, taken-count (is_apply f) (is_apply f) s.tasks rest t e)))
      (ended-Works s (is_apply f) rest t (Store.applied f i x) f e (λ g ne. ground arith)) v

pub finish_apply-IsBorn :
    (s : Shared) (f : ℕ) (i : Option Inverse) (x : Option Error)
    → IsBorn s
    → IsBorn (finish_apply s f i x)
unfolding finish_apply
finish_apply-IsBorn s f i x v = apply_ended-IsBorn s f i x (take_out (is_apply f) s.tasks) refl v

module _ (outcome : ℕ → Option Error) where
  unwind_ended-IsBorn :
      (s : Shared) (f : ℕ) (o : Option (Task × List Task))
      → take_out (is_unwind f) s.tasks ≡ o
      → IsBorn s
      → IsBorn (end_unwind outcome s f o)
  unfolding end_unwind
  unwind_ended-IsBorn s f none e v = v
  unwind_ended-IsBorn s f (some (t, rest)) e v =
      let u = unwind_context outcome s t in
      let w = context-Quiet outcome s t in
      Works-IsBorn s _ f
        (given_out s f v
          (λ z. ground (arith, z, taken-count (is_unwind f) (is_unwind f) s.tasks rest t e)))
        (Works-trans {t = u} (Quiet-Works s u f w) (
          ended-Works u (is_unwind f) rest t (Store.unwound f) f
            (ap (take_out (is_unwind f)) w.tasks ∙ e) (λ g ne. ground arith)))
        v

  pub finish_unwind-IsBorn : (s : Shared) (f : ℕ) → IsBorn s → IsBorn (finish_unwind outcome s f)
  unfolding finish_unwind
  finish_unwind-IsBorn s f v = unwind_ended-IsBorn s f (take_out (is_unwind f) s.tasks) refl v
