-- ===== src/Steps/Silence.antt =====
-- The operations on contexts bear on no fiber: they may wake the orchestrator, and that is all.
use stc_go.Base.{ℕ, ◌+◌, ◌≡◌, refl, Option, none, some, List, [], ◌∷◌, ◌++◌, arith, if_both}
use stc_go.Key.{Text, Key, Any, Realm, Reflect, assignable, Error}
use stc_go.Store.{
  ProvKey, Inverse, Context, Shared, user, is_inactive, set_context, trace_locked,
  wake_service_watchers, notify_orch,
}
use stc_go.Store
use stc_go.Scope.{child, set, isolate, intercept}
use stc_go.Services.{Result, provide, checked_provide, add_provide, prov_key}
use stc_go.Hooks.{on, emit}
use stc_go.Unwind.{Install, effect, effect_commit, self_undo, keep_inverse}
use stc_go.Trace.Numbers.{IsLog-later, IsLog-push}
use stc_go.Orchestrator.Quiet.{
  Quiet, Quiet-refl, Quiet-trans, unchanged, logged, run_inverse-Quiet, notify_orch-Quiet,
}

pub child-Quiet : (s : Shared) (c : ℕ) → Quiet s (child s c).1
unfolding child
child-Quiet s c =
    unchanged s _ (λ g. ground arith) (ground arith) (ground arith) (ground arith) (ground arith)
      (ground arith) (ground arith) (λ o h. ground arith) (ground arith) (ground arith)

-- A step that changes the contexts and the entries alone.
pub silent :
    (s : Shared) (c : ℕ) (x : Context)
    → x.fiber ≡ (s.contexts c).fiber
    → Quiet s (set_context s c x)
silent s c x e =
    unchanged s _ (λ g. refl) refl refl refl refl (omega arith) (omega arith) (λ o h. ground arith)
      refl refl

pub set-Quiet : (r : Reflect) (s : Shared) (c : ℕ) (k : Key) (v : Any) → Quiet s (set r s c k v).1
unfolding set
set-Quiet r s c k v =
    if_both {A = Option Error × Shared} (λ x. Quiet s x.1) (assignable r k v)
      (if_both {A = Option Error × Shared} (λ x. Quiet s x.1) (is_inactive s c) (Quiet-refl s)
        (silent s c _ refl))
      (Quiet-refl s)

wake-notify : (s t : Shared) → Quiet s t → Quiet s (notify_orch (wake_service_watchers t))
unfolding wake_service_watchers
wake-notify s t w =
    let u = wake_service_watchers t in
    Quiet-trans {t = t} w (
      Quiet-trans {t = u}
        (unchanged t u (λ g. refl) refl refl refl refl (omega arith) (omega arith)
          (λ o h. ground arith) refl refl)
        (notify_orch-Quiet u))

pub isolate-Quiet : (s : Shared) (c : ℕ) (k : Key) (x : Option Realm) → Quiet s (isolate s c k x).1
unfolding isolate
isolate-Quiet s c k x =
    if_both {A = Option Error × Shared} (λ x. Quiet s x.1) (is_inactive s c) (Quiet-refl s)
      (wake-notify s _ (silent s c _ refl))

pub intercept-Quiet : (s : Shared) (c : ℕ) (k : Key) (v : Any) → Quiet s (intercept s c k v).1
unfolding intercept
intercept-Quiet s c k v =
    if_both {A = Option Error × Shared} (λ x. Quiet s x.1) (is_inactive s c) (Quiet-refl s)
      (unchanged s _ (λ g. refl) refl refl refl refl (omega arith) (omega arith)
        (λ o h. ground arith) refl refl)

pub on-Quiet : (s : Shared) (c : ℕ) (name : Text) (fn : ℕ) → Quiet s (on s c name fn).1
unfolding on
on-Quiet s c name fn =
    if_both {A = Option Error × Shared} (λ x. Quiet s x.1) (is_inactive s c) (Quiet-refl s)
      (unchanged s _ (λ g. refl) refl refl refl refl (omega arith) (omega arith)
        (λ o h. ground arith) refl refl)

pub emit-Quiet : (s : Shared) (name : Text) (args : List Any) → Quiet s (emit s name args)
unfolding emit
emit-Quiet s name args =
    unchanged s _ (λ g. refl) refl refl refl refl (omega arith) (omega arith) (λ o h. ground arith)
      refl refl

add_provide-Quiet : (s : Shared) (c : ℕ) (pk : ProvKey) (v : Any) → Quiet s (add_provide s c pk v).1
unfolding add_provide trace_locked
add_provide-Quiet s c pk v = wake-notify s _ (
    logged s _ (λ g. refl) refl refl refl refl (omega arith) (omega arith) (λ o h. ground arith)
      refl
      (λ v.
        IsLog-push (s.seq + 1) s.trace _ (omega arith)
          (IsLog-later s.seq (s.seq + 1) s.trace (omega arith) v)))

checked-Quiet :
    (o : Option ℕ) (s : Shared) (c : ℕ) (pk : ProvKey) (v : Any)
    → Quiet s (checked_provide o s c pk v).1
unfolding checked_provide
checked-Quiet none s c pk v = add_provide-Quiet s c pk v
checked-Quiet (some o) s c pk v = Quiet-refl s

pub provide-Quiet :
    (r : Reflect) (s : Shared) (c : ℕ) (k : Key) (v : Any) → Quiet s (provide r s c k v).1
unfolding provide
provide-Quiet r s c k v =
    if_both {A = Result Inverse × Shared} (λ x. Quiet s x.1) (assignable r k v)
      (if_both {A = Result Inverse × Shared} (λ x. Quiet s x.1) (is_inactive s c) (Quiet-refl s)
        (checked-Quiet _ s c (prov_key s c k) v))
      (Quiet-refl s)

module _ (outcome : ℕ → Option Error) where
  undo-Quiet : (s : Shared) (i : Option ℕ) → Quiet s (self_undo outcome s i)
  unfolding self_undo
  undo-Quiet s none = Quiet-refl s
  undo-Quiet s (some n) = run_inverse-Quiet outcome s (user n)

  keep-Quiet : (s : Shared) (c : ℕ) (i : Option ℕ) → Quiet s (keep_inverse outcome s c i)
  unfolding keep_inverse
  keep-Quiet s c none = Quiet-refl s
  keep-Quiet s c (some n) = silent s c _ refl

  commit-Quiet : (s : Shared) (c : ℕ) (i : Option ℕ) → Quiet s (effect_commit outcome s c i).1
  unfolding effect_commit
  commit-Quiet s c i =
      if_both {A = Option Error × Shared} (λ x. Quiet s x.1) (is_inactive s c) (undo-Quiet s i)
        (keep-Quiet s c i)

  pub effect-Quiet : (s : Shared) (c : ℕ) (i : Option Install) → Quiet s (effect outcome s c i).1
  unfolding effect
  effect-Quiet s c none = Quiet-refl s
  effect-Quiet s c (some i) =
      let t = record s { deeds = s.deeds ++ Store.installed i.action ∷ [] } in
      Quiet-trans {t = t}
        (unchanged s t (λ g. refl) refl refl refl refl (omega arith) (omega arith)
          (λ o h. ground arith) refl refl)
        (commit-Quiet t c i.inverse)
