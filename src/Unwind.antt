-- ===== src/Unwind.antt =====
-- context.go: revertible effects, and the unwinding of a scope with its subtree.
pub mod Recovery
pub mod Order
pub mod Provision
pub mod Silence
pub mod Spared
pub mod Subtree
pub mod Spread
pub mod Descent
pub mod Listeners
pub mod Hush
pub mod Undo
use stc_go.Base.{
  ℕ, zero, suc, true, false, Option, none, some, or_else, List, [], ◌∷◌, ◌++◌, reverse, drop_first,
  if◌then◌else◌, ℕ_discrete,
}
use stc_go.Base.Assoc.{insert, delete}
use stc_go.Key.{Text-discrete, Key-discrete, Error, inactive, nil_install}
use stc_go.Store.{
  Inverse, unprovide, unisolate, unintercept, unlisten, user, Shared, set_context, installed,
  undone, intercepts_of, listeners_of, is_inactive,
}
use stc_go.Scope.{detach}
use stc_go.Services.{remove_provide}

-- The inverse that `Effect` gets from a caller's install function; `action` names the function.
pub record Install : Type 0 where
  pub action : ℕ
  pub inverse : Option ℕ

-- `outcome` is what each of the callers' inverses returns.
module _ (outcome : ℕ → Option Error) where
  -- The bodies of the closures that the package registers, and a call of a caller's inverse.
  unfoldable pub run_inverse : Shared → Inverse → Option Error × Shared
  unfolding drop_first
  run_inverse s (unprovide pk e) = (none, remove_provide s pk e)
  run_inverse s (unisolate c key) =
      let x = s.contexts c in
      (none, set_context s c (record x { realm_for = delete Key-discrete key x.realm_for }))
  run_inverse s (unintercept c key id) =
      let x = s.contexts c in
      let rest = drop_first (λ e. ℕ_discrete e.id id) (intercepts_of x.interc key) in
      (none, set_context s c (record x { interc = insert Key-discrete key rest x.interc }))
  run_inverse s (unlisten name id) =
      let rest = drop_first (λ e. ℕ_discrete e.id id) (listeners_of s.listeners name) in
      (none, record s { listeners = insert Text-discrete name rest s.listeners })
  run_inverse s (user n) = (outcome n, record s { deeds = s.deeds ++ undone n ∷ [] })

  -- The loop over the inverses, which it is given in the order of execution; `first` is the
  -- first error so far.
  unfoldable pub run_inverses : Shared → List Inverse → Option Error → Option Error × Shared
  run_inverses s [] first = (first, s)
  run_inverses s (i ∷ is) first =
      let (e, s') = run_inverse s i in run_inverses s' is (or_else first e)

  -- The part under the lock: mark the scope, leave the parent's list, take the two lists.
  unfoldable pub begin_unwind : Shared → ℕ → Shared
  begin_unwind s c =
      let x = s.contexts c in
      let marked = set_context s c (record x { unwinding = true; closed = true }) in
      let left = detach marked c in
      set_context left c (record (left.contexts c) { children = []; inverses = [] })

  -- The loop over the subtrees, in the order of execution.
  unfoldable pub unwind_all :
      (Shared → ℕ → Option Error × Shared) → Shared → List ℕ → Option Error → Option Error × Shared
  unwind_all unwind_one s [] first = (first, s)
  unwind_all unwind_one s (c ∷ cs) first =
      let (e, s') = unwind_one s c in unwind_all unwind_one s' cs (or_else first e)

  unfoldable pub unwind_with : ℕ → Shared → ℕ → Option Error × Shared
  unwind_with zero s c = (none, s)
  unwind_with (suc fuel) s c = elim (s.contexts c).unwinding [
    | true ↦ (none, s)
    | false ↦
        let x = s.contexts c in
        let (e, s') = unwind_all (unwind_with fuel) (begin_unwind s c) (reverse x.children) none in
        run_inverses s' (reverse x.inverses) e
  ]

  -- unwind: a scope's children are younger than itself, so the depth is below the fuel.
  unfoldable pub unwind : Shared → ℕ → Option Error × Shared
  unfolding unwind_with
  unwind s c = unwind_with s.next_context s c

  -- Release
  unfoldable pub release : Shared → ℕ → Option Error × Shared
  release s c = unwind s c

  unfoldable pub self_undo : Shared → Option ℕ → Shared
  self_undo s none = s
  self_undo s (some n) = (run_inverse s (user n)).1

  unfoldable pub keep_inverse : Shared → ℕ → Option ℕ → Shared
  keep_inverse s c none = s
  keep_inverse s c (some n) =
      let x = s.contexts c in set_context s c (record x { inverses = x.inverses ++ user n ∷ [] })

  -- `Effect` from where it takes the lock; other goroutines may run between the two parts.
  unfoldable pub effect_commit : Shared → ℕ → Option ℕ → Option Error × Shared
  unfolding self_undo keep_inverse
  effect_commit s c inv =
      if is_inactive s c then (some inactive, self_undo s inv) else (none, keep_inverse s c inv)

  -- Effect
  unfoldable pub effect : Shared → ℕ → Option Install → Option Error × Shared
  unfolding effect_commit
  effect s c none = (some nil_install, s)
  effect s c (some i) =
      effect_commit (record s { deeds = s.deeds ++ installed i.action ∷ [] }) c i.inverse
