-- ===== src/Steps/Contexts.antt =====
-- The operations on contexts, but Provide, keep a recoverable application recoverable.
use stc_go.Base.{
  ℕ, ◌<◌, ◌+◌, refl, sym, ap, ◌∙◌, subst, Option, none, some, List, [], ◌∷◌, ◌++◌, append_nil,
  arith, All, All-drop_first, if◌then◌else◌, ◌==◌, if_both, ite,
}
use stc_go.Key.{Text, Key, Any, Realm, Reflect, Error}
use stc_go.Store.{
  ProvKey, ProvKey-discrete, ProvideEntry, Inverse, unprovide, unisolate, unintercept, unlisten,
  user, Shared, entries, is_inactive, notify_orch, send, same, wake_service_watchers,
}
use stc_go.Store
use stc_go.Scope.{child, set, isolate, intercept}
use stc_go.Services.{remove_provide}
use stc_go.Services.Entries.{without, entries-remove_provide, contexts-remove_provide}
use stc_go.Hooks.{on, emit}
use stc_go.Unwind.{Install, run_inverse, effect, effect_commit, self_undo, keep_inverse}
use stc_go.Unwind.Recovery.{IsRising, IsRising-without, IsOf}
use stc_go.Orchestrator.Quiet.{run_inverse-Quiet}
use stc_go.Unwind.Spread.{Spread-IsTree, run_inverse-Spread}
use stc_go.Steps.Trees.{child-IsTree, IsTree-same}
use stc_go.Steps.Scoped.{
  Scoped, Scoped-trans, Scoped-refl, Scoped-same, Scoped-outside, Scoped-adds, Heard-adds,
  Quiet-sent,
}
use stc_go.Unwind.Listeners.{listeners-remove_provide}
use stc_go.Steps.Heard.{IsHeard-same}
use stc_go.Steps.Listening.{on-IsHeard}
use stc_go.Steps.Silence.{child-Quiet, set-Quiet, isolate-Quiet, intercept-Quiet, on-Quiet, silent}

pub child-Scoped : (s : Shared) (c : ℕ) → c < s.next_context → Scoped s (child s c).1
child-Scoped s c h =
    let w = child-Quiet s c in
    Scoped-same s _ w.next w.seq (unfold child in ground arith) (unfold child in ground arith)
      (λ o h. unfold child in ground arith) (λ o v. unfold child in ground arith) (Quiet-sent s _ w)
      (child-IsTree s c h) w.log

-- The closures of one scope, and none of any other.
abbrev at : ℕ → List Inverse → ℕ → List Inverse
at c is o = if c == o then is else []

nowhere : ℕ → List Inverse
nowhere o = []

at-IsOf : (c : ℕ) (i : Inverse) → ((o : ℕ) → IsOf o i) → (o : ℕ) → All (IsOf o) (at c (i ∷ []) o)
at-IsOf c i h o = if_both (All (IsOf o)) (c == o) (h o, tt) tt

pub set-Scoped : (r : Reflect) (s : Shared) (c : ℕ) (k : Key) (v : Any) → Scoped s (set r s c k v).1
unfolding set
set-Scoped r s c k v =
    let w = set-Quiet r s c k v in
    Scoped-same s _ w.next w.seq (ground arith) (ground arith) (λ o h. ground arith)
      (λ o v. ground arith) (Quiet-sent s _ w)
      (IsTree-same s _ (ground arith) (λ o. (ground arith, ground arith)) (λ o. ground arith)
        (λ g. ground arith))
      w.log

-- One closure for a live scope, none for another.
added-IsOf :
    (s : Shared) (c : ℕ) (i : Inverse) (o : ℕ)
    → ((o : ℕ) → IsOf o i)
    → All (IsOf o) (if is_inactive s c then [] else at c (i ∷ []) o)
added-IsOf s c i o h = if_both (All (IsOf o)) (is_inactive s c) tt (at-IsOf c i h o)

pub isolate-Scoped :
    (s : Shared) (c : ℕ) (k : Key) (x : Option Realm) → Scoped s (isolate s c k x).1
unfolding isolate notify_orch send wake_service_watchers
isolate-Scoped s c k x =
    Scoped-adds s _ (λ o. if is_inactive s c then [] else at c (unisolate c k ∷ []) o)
      (isolate-Quiet s c k x) (ground arith)
      (λ o. ground (arith, append_nil (s.contexts o).inverses))
      (λ o. added-IsOf s c (unisolate c k) o (λ o. tt))
      (IsTree-same s _ (ground arith) (λ o. (ground arith, ground arith)) (λ o. ground arith)
        (λ g. ground arith))
      (Heard-adds s _ (λ o. if is_inactive s c then [] else at c (unisolate c k ∷ []) o)
        (isolate-Quiet s c k x) (ground arith) (ground arith)
        (λ o. ground (arith, append_nil (s.contexts o).inverses)))

pub intercept-Scoped : (s : Shared) (c : ℕ) (k : Key) (v : Any) → Scoped s (intercept s c k v).1
unfolding intercept
intercept-Scoped s c k v =
    let i = unintercept c k (s.seq + 1) in
    Scoped-adds s _ (λ o. if is_inactive s c then [] else at c (i ∷ []) o) (intercept-Quiet s c k v)
      (ground arith) (λ o. ground (arith, append_nil (s.contexts o).inverses))
      (λ o. added-IsOf s c i o (λ o. tt))
      (IsTree-same s _ (ground arith) (λ o. (ground arith, ground arith)) (λ o. ground arith)
        (λ g. ground arith))
      (Heard-adds s _ (λ o. if is_inactive s c then [] else at c (i ∷ []) o)
        (intercept-Quiet s c k v) (ground arith) (ground arith)
        (λ o. ground (arith, append_nil (s.contexts o).inverses)))

pub on-Scoped :
    (s : Shared) (c : ℕ) (name : Text) (fn : ℕ) → c < s.next_context → Scoped s (on s c name fn).1
unfolding on
on-Scoped s c name fn h =
    let i = unlisten name (s.seq + 1) in
    Scoped-adds s _ (λ o. if is_inactive s c then [] else at c (i ∷ []) o) (on-Quiet s c name fn)
      (ground arith) (λ o. ground (arith, append_nil (s.contexts o).inverses))
      (λ o. added-IsOf s c i o (λ o. tt))
      (IsTree-same s _ (ground arith) (λ o. (ground arith, ground arith)) (λ o. ground arith)
        (λ g. ground arith))
      (on-IsHeard s c name fn h)

pub emit-Scoped : (s : Shared) (name : Text) (args : List Any) → Scoped s (emit s name args)
unfolding emit
emit-Scoped s name args =
    Scoped-outside s _ (omega arith) refl refl refl refl (λ g. refl) (λ v. v) (λ v. v)

-- The withdrawal of an entry.
fewer-without :
    (s : Shared) (pk qk : ProvKey) (e : ProvideEntry) (P : List ProvideEntry → Type 0)
    → ((es : List ProvideEntry) → P es → P (without e es))
    → P (entries s.provides qk)
    → P (entries (remove_provide s pk e).provides qk)
fewer-without s pk qk e P out v =
    rw (entries-remove_provide s pk qk e)
      (elim (ProvKey-discrete pk qk)
        as (λ d. P (ite d (without e (entries s.provides pk)) (entries s.provides qk))) [
          | yes h ↦ out (entries s.provides pk) (subst (λ k. P (entries s.provides k)) (sym h) v)
          | no h ↦ v
        ])

module _ (outcome : ℕ → Option Error) where
  pub withdraw-Scoped :
      (s : Shared) (pk : ProvKey) (e : ProvideEntry)
      → Scoped s (run_inverse outcome s (unprovide pk e)).1
  unfolding run_inverse
  withdraw-Scoped s pk e =
      let w = run_inverse-Quiet outcome s (unprovide pk e) in
      let kept = contexts-remove_provide s pk e in
      record {
        next = w.next;
        seq = w.seq;
        owner = w.owner;
        fewer = λ qk Q v. fewer-without s pk qk e (All Q) (All-drop_first Q (λ x. same x e)) v;
        rising = λ qk n v. fewer-without s pk qk e (IsRising n) (IsRising-without n e) v;
        live = λ o h v. sym (ap (λ (h : ℕ → Store.Context). (h o).unwinding) kept) ∙ v;
        kept = λ o i h v m. rw kept m;
        own = λ o v. rw kept v;
        sent = Quiet-sent s _ w;
        tree = Spread-IsTree s _ (run_inverse-Spread outcome s (unprovide pk e));
        log = w.log;
        heard =
            IsHeard-same s _ w.next w.seq
              (λ qk Q v. fewer-without s pk qk e (All Q) (All-drop_first Q (λ x. same x e)) v)
              (listeners-remove_provide s pk e)
              (λ o h. ap (λ (h : ℕ → Store.Context). (h o).unwinding) kept)
              (λ o i h v m. rw kept m);
      }

  pub user-Scoped : (s : Shared) (n : ℕ) → Scoped s (run_inverse outcome s (user n)).1
  unfolding run_inverse
  user-Scoped s n =
      Scoped-outside s _ (omega arith) refl refl refl refl (λ g. refl) (λ v. v) (λ v. v)

  undo-Scoped : (s : Shared) (i : Option ℕ) → Scoped s (self_undo outcome s i)
  unfolding self_undo
  undo-Scoped s none = Scoped-refl s
  undo-Scoped s (some n) = user-Scoped s n

  -- A caller's closure joins a scope.
  pub join-Scoped :
      (s : Shared) (c n : ℕ)
      → Scoped s (
          Store.set_context s c
            (record (s.contexts c) { inverses = (s.contexts c).inverses ++ user n ∷ [] }))
  join-Scoped s c n =
      Scoped-adds s _ (at c (user n ∷ [])) (silent s c _ refl) refl
        (λ o. ground (arith, append_nil (s.contexts o).inverses)) (at-IsOf c (user n) (λ o. tt))
        (IsTree-same s _ (ground arith) (λ o. (ground arith, ground arith)) (λ o. ground arith)
          (λ g. ground arith))
        (Heard-adds s _ (at c (user n ∷ [])) (silent s c _ refl) refl refl
          (λ o. ground (arith, append_nil (s.contexts o).inverses)))

  keep-Scoped : (s : Shared) (c : ℕ) (i : Option ℕ) → Scoped s (keep_inverse outcome s c i)
  unfolding keep_inverse
  keep-Scoped s c none = Scoped-refl s
  keep-Scoped s c (some n) = join-Scoped s c n

  commit-Scoped : (s : Shared) (c : ℕ) (i : Option ℕ) → Scoped s (effect_commit outcome s c i).1
  unfolding effect_commit
  commit-Scoped s c i =
      if_both {A = Option Error × Shared} (λ x. Scoped s x.1) (is_inactive s c) (undo-Scoped s i)
        (keep-Scoped s c i)

  pub effect-Scoped : (s : Shared) (c : ℕ) (i : Option Install) → Scoped s (effect outcome s c i).1
  unfolding effect
  effect-Scoped s c none = Scoped-refl s
  effect-Scoped s c (some i) =
      let t = record s { deeds = s.deeds ++ Store.installed i.action ∷ [] } in
      Scoped-trans {t = t}
        (Scoped-outside s t (omega arith) refl refl refl refl (λ g. refl) (λ v. v) (λ v. v))
        (commit-Scoped t c i.inverse)
