-- ===== src/Orchestrator/Quiet.antt =====
-- Steps that no fiber notices, but for a wake-up of the orchestrator: the operations on contexts.
use stc_go.Base.{
  ℕ, zero, suc, ◌+◌, ◌≤◌, ◌<◌, ◌≡◌, refl, sym, ◌∙◌, ap, Bool, true, false, Option, List, [], ◌∷◌,
  ◌++◌, arith, count_if, count_if-append, append_nil, if◌then◌else◌,
}
use mathlib.Core.List.{append_assoc}
use stc_go.Key.{Text, Error}
use stc_go.Store.{
  Cmd, ProvKey, ProvideEntry, Inverse, unprovide, unisolate, unintercept, unlisten, user, Shared,
  Orchestrator, trace_user, trace_locked, notify_orch, wake_service_watchers,
}
use stc_go.Store
use stc_go.Trace.{TraceKind}
use stc_go.Trace.Numbers.{IsLog, IsLog-later, IsLog-push}
use stc_go.Trace
use stc_go.Services.{put_entries, remove_provide, has_same}
use stc_go.Services.Entries.{without}
use stc_go.Unwind.{run_inverse}
use stc_go.Fiber.{capture_deps}
use stc_go.Orchestrator.Frames.{life}
use stc_go.Orchestrator.Tokens.{Inv, Idle, LoadFirst, is_applied, is_unwound, is_load}

abbrev pub services : ℕ → List Cmd
services zero = []
services (suc n) = Store.service ∷ services n

pub record Quiet (s t : Shared) : Type 0 where
  pub lives : (g : ℕ) → life t g ≡ life s g
  pub registry : t.registry ≡ s.registry
  pub tasks : t.tasks ≡ s.tasks
  pub pending : t.pending ≡ s.pending
  pub seq : s.seq ≤ t.seq
  pub next : s.next_context ≤ t.next_context
  pub owner : (o : ℕ) → o < s.next_context → (t.contexts o).fiber ≡ (s.contexts o).fiber
  pub stopping : t.orch.stopping ≡ s.orch.stopping
  pub exited : t.orch.exited ≡ s.orch.exited
  pub calls : t.fiber_wakes ≡ s.fiber_wakes
  pub log : IsLog s.seq s.trace → IsLog t.seq t.trace
  pub wakes : ℕ
  pub inbox : t.orch.inbox ≡ s.orch.inbox ++ services wakes

services-append : (m n : ℕ) → services m ++ services n ≡ services (m + n)
services-append zero n = let e : n ≡ zero + n = omega arith in ap services e
services-append (suc m) n =
    let e : suc (m + n) ≡ suc m + n = omega arith in
    ap (◌∷◌ Store.service) (services-append m n) ∙ ap services e

pub Quiet-refl : (s : Shared) → Quiet s s
Quiet-refl s = record {
  lives = λ g. refl;
  registry = refl;
  tasks = refl;
  pending = refl;
  seq = omega arith;
  next = omega arith;
  owner = λ o h. refl;
  stopping = refl;
  exited = refl;
  calls = refl;
  log = λ v. v;
  wakes = 0;
  inbox = sym (append_nil s.orch.inbox);
}

pub Quiet-trans : {s t u : Shared} → Quiet s t → Quiet t u → Quiet s u
Quiet-trans {s} {t} {u} a b = record {
  lives = λ g. b.lives g ∙ a.lives g;
  registry = b.registry ∙ a.registry;
  tasks = b.tasks ∙ a.tasks;
  pending = b.pending ∙ a.pending;
  seq = omega (arith, a.seq, b.seq);
  next = omega (arith, a.next, b.next);
  owner = λ o h. b.owner o (omega (arith, a.next, h)) ∙ a.owner o h;
  stopping = b.stopping ∙ a.stopping;
  exited = b.exited ∙ a.exited;
  calls = b.calls ∙ a.calls;
  log = λ v. b.log (a.log v);
  wakes = a.wakes + b.wakes;
  inbox =
      b.inbox
      ∙ ap (λ (l : List Cmd). l ++ services b.wakes) a.inbox
      ∙ append_assoc s.orch.inbox _ _
      ∙ ap (◌++◌ s.orch.inbox) (services-append a.wakes b.wakes);
}

pub count-services :
    (p : Cmd → Bool) (n : ℕ) → p Store.service ≡ false → count_if p (services n) ≡ 0
count-services p zero h = refl
count-services p (suc n) h = rw h (count-services p n h)

LoadFirst-services : (f n : ℕ) (q : List Cmd) → LoadFirst f q → LoadFirst f (q ++ services n)
LoadFirst-services f zero [] h = tt
LoadFirst-services f (suc n) [] h = ((λ e. cc), LoadFirst-services f n [] tt)
LoadFirst-services f n (c ∷ q) h = (
  λ e.
      count_if-append (is_load f) q (services n)
      ∙ omega (arith, h.0 e, count-services (is_load f) n refl),
  LoadFirst-services f n q h.1,
)

module _ (s t : Shared) (w : Quiet s t) (q : List Cmd) (f : ℕ) where
  pub Inv-Quiet : Inv s q f → Inv t (q ++ services w.wakes) f
  Inv-Quiet v = ground (
    arith,
    w.lives f,
    count_if-append (is_applied f) q (services w.wakes),
    count-services (is_applied f) w.wakes refl,
    count_if-append (is_unwound f) q (services w.wakes),
    count-services (is_unwound f) w.wakes refl,
    count_if-append (is_load f) q (services w.wakes),
    count-services (is_load f) w.wakes refl,
    LoadFirst-services f w.wakes q,
  )

  pub Idle-Quiet : Idle s q f → Idle t (q ++ services w.wakes) f
  Idle-Quiet v = ground (
    arith,
    count_if-append (is_applied f) q (services w.wakes),
    count-services (is_applied f) w.wakes refl,
    count_if-append (is_unwound f) q (services w.wakes),
    count-services (is_unwound f) w.wakes refl,
    count_if-append (is_load f) q (services w.wakes),
    count-services (is_load f) w.wakes refl,
    LoadFirst-services f w.wakes q,
  )

-- A step of which no fiber and no command takes notice; the last argument is about the trace.
pub logged :
    (s t : Shared)
    → ((g : ℕ) → life t g ≡ life s g)
    → t.registry ≡ s.registry
    → t.tasks ≡ s.tasks
    → t.pending ≡ s.pending
    → t.orch ≡ s.orch
    → s.seq ≤ t.seq
    → s.next_context ≤ t.next_context
    → ((c : ℕ) → c < s.next_context → (t.contexts c).fiber ≡ (s.contexts c).fiber)
    → t.fiber_wakes ≡ s.fiber_wakes
    → (IsLog s.seq s.trace → IsLog t.seq t.trace)
    → Quiet s t
logged s t l r k p o q n c w log = record {
  lives = l;
  registry = r;
  tasks = k;
  pending = p;
  seq = q;
  next = n;
  owner = c;
  calls = w;
  log = log;
  stopping = ap (λ (x : Orchestrator). x.stopping) o;
  exited = ap (λ (x : Orchestrator). x.exited) o;
  wakes = 0;
  inbox = ap (λ (x : Orchestrator). x.inbox) o ∙ sym (append_nil s.orch.inbox);
}

pub unchanged :
    (s t : Shared)
    → ((g : ℕ) → life t g ≡ life s g)
    → t.registry ≡ s.registry
    → t.tasks ≡ s.tasks
    → t.pending ≡ s.pending
    → t.orch ≡ s.orch
    → s.seq ≤ t.seq
    → s.next_context ≤ t.next_context
    → ((c : ℕ) → c < s.next_context → (t.contexts c).fiber ≡ (s.contexts c).fiber)
    → t.fiber_wakes ≡ s.fiber_wakes
    → t.trace ≡ s.trace
    → Quiet s t
unchanged s t l r k p o q n c w e =
    logged s t l r k p o q n c w (λ v. rw e (IsLog-later s.seq t.seq s.trace q v))

-- An event joins the trace.
event-IsLog :
    (s : Shared) (k : TraceKind) (f : ℕ) (key : Text)
    → IsLog s.seq s.trace
    → IsLog (trace_locked s k f key).seq (trace_locked s k f key).trace
unfolding trace_locked
event-IsLog s k f key v = IsLog-push s.seq s.trace _ (omega arith) v

pub trace_user-Quiet : (s : Shared) (k : TraceKind) (f : ℕ) → Quiet s (trace_user s k f)
unfolding trace_user trace_locked
trace_user-Quiet s k f =
    logged s _ (λ g. refl) refl refl refl refl (omega arith) (omega arith) (λ o h. ground arith)
      refl (event-IsLog s k f [])

pub capture_deps-Quiet : (s : Shared) (f : ℕ) → Quiet s (capture_deps s f)
unfolding capture_deps
capture_deps-Quiet s f =
    unchanged s _ (λ g. ground arith) refl refl refl refl (omega arith) (omega arith)
      (λ o h. ground arith) refl refl

pub notify_orch-Quiet : (s : Shared) → Quiet s (notify_orch s)
unfolding notify_orch
notify_orch-Quiet s = record {
  lives = λ g. ground arith;
  registry = ground arith;
  tasks = ground arith;
  pending = ground arith;
  seq = ground arith;
  next = ground arith;
  owner = λ o h. ground arith;
  stopping = ground arith;
  exited = ground arith;
  calls = ground arith;
  log = λ v. ground (arith, v);
  wakes = if s.orch.exited then 0 else 1;
  inbox = ground (arith, append_nil s.orch.inbox);
}

put_entries-Quiet :
    (pk : ProvKey) (es : List ProvideEntry) (s : Shared) → Quiet s (put_entries pk es s)
unfolding put_entries
put_entries-Quiet pk [] s =
    unchanged s _ (λ g. refl) refl refl refl refl (omega arith) (omega arith) (λ o h. ground arith)
      refl refl
put_entries-Quiet pk (e ∷ es) s =
    unchanged s _ (λ g. refl) refl refl refl refl (omega arith) (omega arith) (λ o h. ground arith)
      refl refl

pub Quiet-if : {s t u : Shared} (b : Bool) → Quiet s t → Quiet s u → Quiet s (if b then t else u)
Quiet-if true a b = a
Quiet-if false a b = b

wake-Quiet : (s : Shared) → Quiet s (wake_service_watchers s)
unfolding wake_service_watchers
wake-Quiet s =
    unchanged s _ (λ g. refl) refl refl refl refl (omega arith) (omega arith) (λ o h. ground arith)
      refl refl

trace_locked-Quiet :
    (s : Shared) (k : TraceKind) (f : ℕ) (key : Text) → Quiet s (trace_locked s k f key)
unfolding trace_locked
trace_locked-Quiet s k f key =
    logged s _ (λ g. refl) refl refl refl refl (omega arith) (omega arith) (λ o h. ground arith)
      refl (event-IsLog s k f key)

pub remove_provide-Quiet :
    (s : Shared) (pk : ProvKey) (e : ProvideEntry) → Quiet s (remove_provide s pk e)
unfolding remove_provide
remove_provide-Quiet s pk e =
    let out = put_entries pk (without e (Store.entries s.provides pk)) s in
    let traced = trace_locked out Trace.unprovide (Store.fiber_id s e.owner) pk.key.name in
    Quiet-if (has_same e (Store.entries s.provides pk))
      (Quiet-trans {t = out} (put_entries-Quiet pk _ s) (
        Quiet-trans {t = traced} (trace_locked-Quiet out _ _ _) (
          Quiet-trans {t = wake_service_watchers traced} (wake-Quiet traced)
            (notify_orch-Quiet (wake_service_watchers traced)))))
      (Quiet-refl s)

module _ (outcome : ℕ → Option Error) where
  pub run_inverse-Quiet : (s : Shared) (i : Inverse) → Quiet s (run_inverse outcome s i).1
  unfolding run_inverse
  run_inverse-Quiet s (unprovide pk e) = remove_provide-Quiet s pk e
  run_inverse-Quiet s (unisolate c k) =
      unchanged s _ (λ g. refl) refl refl refl refl (omega arith) (omega arith)
        (λ o h. ground arith) refl refl
  run_inverse-Quiet s (unintercept c k id) =
      unchanged s _ (λ g. refl) refl refl refl refl (omega arith) (omega arith)
        (λ o h. ground arith) refl refl
  run_inverse-Quiet s (unlisten n id) =
      unchanged s _ (λ g. refl) refl refl refl refl (omega arith) (omega arith)
        (λ o h. ground arith) refl refl
  run_inverse-Quiet s (user n) =
      unchanged s _ (λ g. refl) refl refl refl refl (omega arith) (omega arith)
        (λ o h. ground arith) refl refl
