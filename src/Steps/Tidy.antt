-- ===== src/Steps/Tidy.antt =====
-- What holds in every state that an application can come to: no two fibers provide one key in one
-- realm, and unwinding a scope takes out exactly what was provided below it.
use stc_go.Base.{
  ℕ, ◌+◌, ◌≤◌, ◌<◌, ◌≡◌, refl, sym, subst, true, inl, inr, Option, List, [], ◌∷◌, ◌++◌, arith, All,
  All-append, ite,
}
use stc_go.Base.Assoc.{lookup}
use stc_go.Key.{Key, Any, Error, Reflect}
use stc_go.Store.{ProvKey, ProvKey-discrete, ProvideEntry, Shared, new, entries, listeners_of}
use stc_go.Services.{prov_key, add_provide, provide}
use stc_go.Services.Visible.{provide-cases}
use stc_go.Services.Entries.{new_entry, entries-add_provide}
use stc_go.Services.WellFormed.{IsWellFormed, provide-IsWellFormed}
use stc_go.Unwind.{unwind, release}
use stc_go.Unwind.Provision.{IsDated, provide-IsRecoverable}
use stc_go.Unwind.Spared.{unw, survivors, spared}
use stc_go.Unwind.Subtree.{unwind-entries}
use stc_go.Steps.{
  is_callers, Step, child_step, set_step, isolate_step, intercept_step, on_step, emit_step,
  provide_step, withdraw_step, effect_step, release_step, load_step, dispose_step, orchestrate_step,
  start_apply_step, finish_apply_step, finish_unwind_step, shutdown_step, close_step, Reach, begin,
  step,
}
use stc_go.Unwind.Spread.{IsTree}
use stc_go.Unwind.Hush.{IsReady}
use stc_go.Steps.Heard.{IsHeard-IsReady}
use stc_go.Steps.Provided.{provide-IsHeard}
use stc_go.Steps.Trees.{add_provide-IsTree}
use stc_go.Steps.Silence.{provide-Quiet}
use stc_go.Steps.Scoped.{Scoped, Quiet-sent}
use stc_go.Steps.Keeping.{IsTidy, Scoped-IsTidy}
use stc_go.Steps.Contexts.{
  child-Scoped, set-Scoped, isolate-Scoped, intercept-Scoped, on-Scoped, emit-Scoped,
  withdraw-Scoped, effect-Scoped,
}
use stc_go.Steps.Rounds.{
  load-Scoped, dispose-Scoped, orchestrate-Scoped, start_apply-Scoped, finish_apply-Scoped,
  finish_unwind-Scoped, shutdown-Scoped, unwind-Scoped, close-Scoped,
}

-- The entries after Provide, where it has added one.
pub with_entry :
    (s : Shared) (c : ℕ) (pk qk : ProvKey) (v : Any) (P : List ProvideEntry → Type 0)
    → (pk ≡ qk → (es : List ProvideEntry) → P es → P (es ++ new_entry s c v ∷ []))
    → P (entries s.provides qk)
    → P (entries (add_provide s c pk v).1.provides qk)
with_entry s c pk qk v P add p =
    rw (entries-add_provide s c pk qk v)
      (elim (ProvKey-discrete pk qk)
        as (λ d.
          P (ite d (entries s.provides pk ++ new_entry s c v ∷ []) (entries s.provides qk))) [
            | yes h ↦
                add h (entries s.provides pk) (subst (λ k. P (entries s.provides k)) (sym h) p)
            | no h ↦ p
          ])

later_dates :
    (n m : ℕ) (es : List ProvideEntry) → n ≤ m → All (λ e. e.seq ≤ n) es → All (λ e. e.seq ≤ m) es
later_dates n m [] h v = tt
later_dates n m (x ∷ xs) h v = (omega (arith, v.0, h), later_dates n m xs h v.1)

add_provide-seq :
    (s : Shared) (c : ℕ) (pk : ProvKey) (v : Any)
    → (s.seq + 1 ≤ (add_provide s c pk v).1.seq)
      × ((add_provide s c pk v).1.next_context ≡ s.next_context)
unfolding add_provide
add_provide-seq s c pk v = ground arith

add_provide-IsDated :
    (s : Shared) (c : ℕ) (pk : ProvKey) (v : Any) → IsDated s → IsDated (add_provide s c pk v).1
add_provide-IsDated s c pk v d = record {
  dated = λ qk.
      let h = (add_provide-seq s c pk v).0 in
      with_entry s c pk qk v (All (λ e. e.seq ≤ (add_provide s c pk v).1.seq))
        (λ _ es a. All-append _ es _ a (h, tt))
        (later_dates s.seq _ (entries s.provides qk) (omega (arith, h)) (d.dated qk));
}

add_provide-owners :
    (s : Shared) (c : ℕ) (pk : ProvKey) (v : Any) (qk : ProvKey)
    → c < s.next_context
    → All (λ e. e.owner < s.next_context) (entries s.provides qk)
    → All
        (λ e. e.owner < (add_provide s c pk v).1.next_context)
        (entries (add_provide s c pk v).1.provides qk)
add_provide-owners s c pk v qk h a = rw (add_provide-seq s c pk v).1 (
    with_entry s c pk qk v (All (λ e. e.owner < s.next_context))
      (λ _ es b. All-append _ es _ b (h, tt)) a)

provide-IsTidy :
    (r : Reflect) (s : Shared) (c : ℕ) (k : Key) (v : Any)
    → c < s.next_context
    → IsTidy s
    → IsTidy (provide r s c k v).1
provide-IsTidy r s c k v h t = elim (provide-cases r s c k v) [
  | inl e ↦ subst IsTidy (sym e) t
  | inr e ↦ record {
    formed = provide-IsWellFormed r s c k v t.formed;
    whole = provide-IsRecoverable r s c k v t.dated t.whole;
    dated = subst IsDated (sym e) (add_provide-IsDated s c (prov_key s c k) v t.dated);
    owners = λ pk.
        subst (λ (x : Shared). All (λ e. e.owner < x.next_context) (entries x.provides pk)) (sym e)
          (add_provide-owners s c (prov_key s c k) v pk h (t.owners pk));
    honest = Quiet-sent s _ (provide-Quiet r s c k v) t.honest;
    tree = subst IsTree (sym e) (add_provide-IsTree s c (prov_key s c k) v t.tree);
    heard = provide-IsHeard r s c k v h t.heard;
    log = (provide-Quiet r s c k v).log t.log;
  }
]

pub IsTidy-IsReady : {s : Shared} → IsTidy s → IsReady s
IsTidy-IsReady {s} v = IsHeard-IsReady s v.whole v.heard

module _ (r : Reflect) (outcome : ℕ → Option Error) where
  -- A step provides something, or nothing.
  pub data Case (s t : Shared) : Type 1 where
    scoped : Scoped s t → Case s t
    provides :
        (c : ℕ) (k : Key) (v : Any) → c < s.next_context → (provide r s c k v).1 ≡ t → Case s t

  pub Step-cases : {s t : Shared} → Step r outcome is_callers s t → IsTidy s → Case s t
  unfolding release
  Step-cases {s} (child_step c h) v = scoped (child-Scoped s c h)
  Step-cases {s} (set_step c k x h) v = scoped (set-Scoped r s c k x)
  Step-cases {s} (isolate_step c k x h) v = scoped (isolate-Scoped s c k x)
  Step-cases {s} (intercept_step c k x h) v = scoped (intercept-Scoped s c k x)
  Step-cases {s} (on_step c n fn h) v = scoped (on-Scoped s c n fn h)
  Step-cases {s} (emit_step n args) v = scoped (emit-Scoped s n args)
  Step-cases {s} (provide_step c k x h) v = provides c k x h refl
  Step-cases {s} (withdraw_step pk e) v = scoped (withdraw-Scoped outcome s pk e)
  Step-cases {s} (effect_step c i h) v = scoped (effect-Scoped outcome s c i)
  Step-cases {s} (release_step c h) v = scoped (unwind-Scoped outcome s c (IsTidy-IsReady v))
  Step-cases {s} (load_step c comp h) v = scoped (load-Scoped s c comp h)
  Step-cases {s} (dispose_step f h) v = scoped (dispose-Scoped s f)
  Step-cases {s} orchestrate_step v = scoped (orchestrate-Scoped outcome s v.honest)
  Step-cases {s} (start_apply_step f) v = scoped (start_apply-Scoped s f)
  Step-cases {s} (finish_apply_step f i e h) v = scoped (finish_apply-Scoped s f i e h)
  Step-cases {s} (finish_unwind_step f) v =
      scoped (finish_unwind-Scoped outcome s f (IsTidy-IsReady v))
  Step-cases {s} shutdown_step v = scoped (shutdown-Scoped s)
  Step-cases {s} (close_step c h) v = scoped (close-Scoped outcome s c (IsTidy-IsReady v))

  Case-IsTidy : (s t : Shared) → Case s t → IsTidy s → IsTidy t
  Case-IsTidy s t (scoped w) v = Scoped-IsTidy s t w v
  Case-IsTidy s t (provides c k x h e) v = subst IsTidy e (provide-IsTidy r s c k x h v)

  new-IsTidy : IsTidy new
  unfolding new entries lookup listeners_of
  new-IsTidy = record {
    formed = record { exclusive = λ pk. (0, tt) };
    whole = record { covered = λ pk. tt; own = λ o. tt; rising = λ pk. tt };
    dated = record { dated = λ pk. tt };
    owners = λ pk. tt;
    honest = tt;
    log = record { rising = tt; dated = tt; bounded = omega arith };
    heard = record { standing = λ pk. tt; listening = λ q. tt; ascending = λ q. tt };
    tree = record {
      younger = λ x. tt;
      marked = λ x e. refl;
      homes = λ g. omega arith;
      older = λ x p e. cc;
    };
  }

  pub Reach-IsTidy : {s : Shared} → Reach r outcome is_callers s → IsTidy s
  Reach-IsTidy begin = new-IsTidy
  Reach-IsTidy (step {s} {t} p q) = let v = Reach-IsTidy p in Case-IsTidy s t (Step-cases q v) v

  -- In every state that an application can come to from New, where each inverse that an Apply has
  -- returned is a function of its own, of each key and realm one fiber at most provides entries.
  pub Reach-IsWellFormed : (s : Shared) → Reach r outcome is_callers s → IsWellFormed s
  Reach-IsWellFormed s p = (Reach-IsTidy p).formed

  -- In every state that an application can come to from New, where each inverse that an Apply has
  -- returned is a function of its own, unwinding an allocated scope marks it, and leaves of every
  -- key exactly the entries of the scopes that it did not unwind, in their order.
  pub Reach-unwind :
      (s : Shared) (c : ℕ) (pk : ProvKey)
      → Reach r outcome is_callers s
      → c < s.next_context
      → (unw (unwind outcome s c).1 c ≡ true)
        × (entries (unwind outcome s c).1.provides pk
            ≡ survivors (spared s (unwind outcome s c).1) (entries s.provides pk))
  Reach-unwind s c pk p h = unwind-entries outcome s c pk h (Reach-IsTidy p).whole
