-- ===== src/Steps/Scoped.antt =====
-- Steps that provide nothing: entries only leave, scopes keep their owners, and the closures of live
-- scopes stay.
use stc_go.Base.{
  ℕ, zero, suc, ◌≤◌, ◌<◌, ◌≡◌, refl, sym, ◌∙◌, true, false, List, ◌++◌, arith, All, All-append, In,
  In-append_left,
}
use stc_go.Store
use stc_go.Store.{Cmd, ProvKey, ProvideEntry, Inverse, Shared, entries}
use stc_go.Unwind.Recovery.{IsRising, IsOf}
use stc_go.Unwind.Spared.{unw, spared, All-survivors, IsRising-survivors}
use stc_go.Unwind.Spread.{IsTree}
use stc_go.Steps.Trees.{IsTree-same}
use stc_go.Orchestrator.Quiet.{Quiet, services}
use stc_go.Unwind.Hush.{Hushed}
use stc_go.Steps.Heard.{IsHeard, IsHeard-same, Hushed-IsHeard}
use stc_go.Trace.Numbers.{IsLog}
use stc_go.Steps.{is_callers}

abbrev pub IsHonest : Cmd → Type 0
IsHonest (Store.applied f i e) = is_callers i ≡ true
IsHonest _ = Unit {0}

pub record Scoped (s t : Shared) : Type 1 where
  pub next : s.next_context ≤ t.next_context
  pub seq : s.seq ≤ t.seq
  pub owner : (o : ℕ) → o < s.next_context → (t.contexts o).fiber ≡ (s.contexts o).fiber
  pub fewer :
      (pk : ProvKey) (Q : ProvideEntry → Type 0)
      → All Q (entries s.provides pk)
      → All Q (entries t.provides pk)
  pub rising :
      (pk : ProvKey) (n : ℕ)
      → IsRising n (entries s.provides pk)
      → IsRising n (entries t.provides pk)
  pub live : (o : ℕ) → o < s.next_context → unw t o ≡ false → unw s o ≡ false
  pub kept :
      (o : ℕ) (i : Inverse)
      → o < s.next_context
      → unw t o ≡ false
      → In i (s.contexts o).inverses
      → In i (t.contexts o).inverses
  pub own : (o : ℕ) → All (IsOf o) (s.contexts o).inverses → All (IsOf o) (t.contexts o).inverses
  pub sent : All IsHonest s.orch.inbox → All IsHonest t.orch.inbox
  pub tree : IsTree s → IsTree t
  pub heard : IsHeard s → IsHeard t
  pub log : IsLog s.seq s.trace → IsLog t.seq t.trace

pub Scoped-trans : {s t u : Shared} → Scoped s t → Scoped t u → Scoped s u
Scoped-trans {s} {t} {u} a b = record {
  next = omega (arith, a.next, b.next);
  seq = omega (arith, a.seq, b.seq);
  owner = λ o h. b.owner o (omega (arith, a.next, h)) ∙ a.owner o h;
  fewer = λ pk Q v. b.fewer pk Q (a.fewer pk Q v);
  rising = λ pk n v. b.rising pk n (a.rising pk n v);
  live = λ o h v. a.live o h (b.live o (omega (arith, a.next, h)) v);
  kept = λ o i h v m.
      let h' : o < t.next_context = omega (arith, a.next, h) in
      b.kept o i h' v (a.kept o i h (b.live o h' v) m);
  own = λ o v. b.own o (a.own o v);
  sent = λ v. b.sent (a.sent v);
  tree = λ v. b.tree (a.tree v);
  heard = λ v. b.heard (a.heard v);
  log = λ v. b.log (a.log v);
}

services-IsHonest : (n : ℕ) → All IsHonest (services n)
services-IsHonest zero = tt
services-IsHonest (suc n) = (tt, services-IsHonest n)

pub Quiet-sent : (s t : Shared) → Quiet s t → All IsHonest s.orch.inbox → All IsHonest t.orch.inbox
Quiet-sent s t w v =
    rw w.inbox (All-append IsHonest s.orch.inbox (services w.wakes) v (services-IsHonest w.wakes))

-- A step that leaves the entries, the listeners, the marks and the closures.
pub Scoped-same :
    (s t : Shared)
    → s.next_context ≤ t.next_context
    → s.seq ≤ t.seq
    → t.provides ≡ s.provides
    → t.listeners ≡ s.listeners
    → ((o : ℕ)
        → o < s.next_context
        → ((t.contexts o).fiber ≡ (s.contexts o).fiber)
          × (unw t o ≡ unw s o)
          × ((t.contexts o).inverses ≡ (s.contexts o).inverses))
    → ((o : ℕ) → All (IsOf o) (s.contexts o).inverses → All (IsOf o) (t.contexts o).inverses)
    → (All IsHonest s.orch.inbox → All IsHonest t.orch.inbox)
    → (IsTree s → IsTree t)
    → (IsLog s.seq s.trace → IsLog t.seq t.trace)
    → Scoped s t
Scoped-same s t n q p l same own sent tree log = record {
  next = n;
  seq = q;
  owner = λ o h. (same o h).0;
  fewer = λ pk Q v. rw p v;
  rising = λ pk n v. rw p v;
  live = λ o h v. sym (same o h).1 ∙ v;
  kept = λ o j h v m. rw (same o h).2 m;
  own = own;
  sent = sent;
  tree = tree;
  heard =
      IsHeard-same s t n q (λ pk Q v. rw p v) l (λ o h. (same o h).1)
        (λ o i h v m. rw (same o h).2 m);
  log = log;
}

-- A step that leaves the contexts altogether.
pub Scoped-outside :
    (s t : Shared)
    → s.seq ≤ t.seq
    → t.next_context ≡ s.next_context
    → t.provides ≡ s.provides
    → t.listeners ≡ s.listeners
    → t.contexts ≡ s.contexts
    → ((g : ℕ) → (t.fibers g).home ≡ (s.fibers g).home)
    → (All IsHonest s.orch.inbox → All IsHonest t.orch.inbox)
    → (IsLog s.seq s.trace → IsLog t.seq t.trace)
    → Scoped s t
Scoped-outside s t q n p l c f sent log =
    Scoped-same s t (omega (arith, n)) q p l (λ o h. rw c (refl, refl, refl)) (λ o v. rw c v) sent
      (IsTree-same s t n (λ x. rw c (refl, refl)) (λ x. rw c refl) f) log

pub Scoped-refl : (s : Shared) → Scoped s s
Scoped-refl s = Scoped-outside s s (omega arith) refl refl refl refl (λ g. refl) (λ v. v) (λ v. v)

-- An operation of a context that adds closures at most.
pub Scoped-adds :
    (s t : Shared) (extra : ℕ → List Inverse)
    → Quiet s t
    → t.provides ≡ s.provides
    → ((o : ℕ)
        → (unw t o ≡ unw s o) × ((t.contexts o).inverses ≡ (s.contexts o).inverses ++ extra o))
    → ((o : ℕ) → All (IsOf o) (extra o))
    → (IsTree s → IsTree t)
    → (IsHeard s → IsHeard t)
    → Scoped s t
Scoped-adds s t extra w p i x tree heard = record {
  next = w.next;
  seq = w.seq;
  owner = w.owner;
  fewer = λ pk Q v. rw p v;
  rising = λ pk n v. rw p v;
  live = λ o h v. sym (i o).0 ∙ v;
  kept = λ o j h v m. rw (i o).1 (In-append_left j (s.contexts o).inverses (extra o) m);
  own = λ o v. rw (i o).1 (All-append (IsOf o) (s.contexts o).inverses (extra o) v (x o));
  sent = Quiet-sent s t w;
  tree = tree;
  heard = heard;
  log = w.log;
}

-- An operation of a context that adds closures, and leaves the listeners.
pub Heard-adds :
    (s t : Shared) (extra : ℕ → List Inverse)
    → Quiet s t
    → t.provides ≡ s.provides
    → t.listeners ≡ s.listeners
    → ((o : ℕ)
        → (unw t o ≡ unw s o) × ((t.contexts o).inverses ≡ (s.contexts o).inverses ++ extra o))
    → IsHeard s
    → IsHeard t
Heard-adds s t extra w p l i =
    IsHeard-same s t w.next w.seq (λ pk Q v. rw p v) l (λ o h. (i o).0)
      (λ o j h v m. rw (i o).1 (In-append_left j (s.contexts o).inverses (extra o) m))

-- Unwinding, of a state that can be recovered and whose listeners can be withdrawn.
pub Hushed-Scoped : (s t : Shared) → Quiet s t → Hushed s t → (IsTree s → IsTree t) → Scoped s t
Hushed-Scoped s t q h tree =
    let w = h.unwound in
    record {
      next = q.next;
      seq = q.seq;
      owner = q.owner;
      fewer = λ pk Q v. rw (w.exact pk) (All-survivors Q (spared s t) (entries s.provides pk) v);
      rising =
          λ pk n v. rw (w.exact pk) (IsRising-survivors (spared s t) n (entries s.provides pk) v);
      live = λ o h v. ground (arith, w.grows o, v);
      kept = λ o i h v m. rw (w.kept o v) m;
      own = w.own;
      sent = Quiet-sent s t q;
      tree = tree;
      heard = Hushed-IsHeard s t q.next q.seq h;
      log = q.log;
    }
