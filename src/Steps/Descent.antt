-- ===== src/Steps/Descent.antt =====
-- The tree of an application: releasing a scope reaches its whole subtree, and withdraws what stands
-- there; walking up from a scope comes to a root.
use stc_go.Base.{ℕ, suc, arith, ◌<◌, ◌≡◌, ◌≢◌, true, false, Option, All, All-imp, subst}
use stc_go.Key.{Text, Error, Reflect}
use stc_go.Store.{ProvKey, Shared, entries, listeners_of}
use stc_go.Scope.{chain, ancestors}
use stc_go.Scope.Ancestry.{IsRooted, chain-enough, chain-IsRooted}
use stc_go.Unwind.{release}
use stc_go.Unwind.Spared.{unw}
use stc_go.Unwind.Descent.{Below, unwind-Below}
use stc_go.Steps.{is_callers, Reach, step, release_step}
use stc_go.Steps.Standing.{Reach-stands}
use stc_go.Unwind.Spread.{clash}
use stc_go.Steps.Tidy.{Reach-IsTidy}

module _ (r : Reflect) (outcome : ℕ → Option Error) where
  -- In every state that an application can come to from New, where each inverse that an Apply has
  -- returned is a function of its own, Release of an allocated scope marks every scope of its
  -- subtree, which is what the lists of children lead to, and leaves no entry of such a scope
  -- under any key and no listener of it at any event.
  pub Reach-Below :
      (s : Shared) (c d : ℕ) (pk : ProvKey) (q : Text)
      → Reach r outcome is_callers s
      → c < s.next_context
      → Below s c d
      → (unw (release outcome s c).1 d ≡ true)
        × All (λ e. e.owner ≢ d) (entries (release outcome s c).1.provides pk)
        × All (λ l. l.owner ≢ d) (listeners_of (release outcome s c).1.listeners q)
  Reach-Below s c d pk q p h w =
      let t = (release outcome s c).1 in
      let mark : unw t d ≡ true =
        unfold release in unwind-Below outcome (Reach-IsTidy r outcome p).tree h w in
      let stands = Reach-stands r outcome t pk q (step p (release_step c h)) in
      let other = λ (o : ℕ) (live : unw t o ≡ false) (e : o ≡ d).
        absurd (clash _ mark (subst (λ x. unw t x ≡ false) e live)) in
      (
        mark,
        All-imp _ _ (λ e. other e.owner) (entries t.provides pk) stands.0,
        All-imp _ _ (λ l. other l.owner) (listeners_of t.listeners q) stands.1,
      )

  -- In every state that an application can come to from New, where each inverse that an Apply has
  -- returned is a function of its own, the walk from a scope up over its parents comes to a scope
  -- without a parent, and takes no more rounds than the number of the scope and one: any more give
  -- the same list of scopes.
  pub Reach-ancestors :
      (s : Shared) (n c : ℕ)
      → Reach r outcome is_callers s
      → c < n
      → (chain n s.contexts c ≡ ancestors s c) × IsRooted s.contexts (ancestors s c)
  unfolding ancestors
  Reach-ancestors s n c p h =
      let older = (Reach-IsTidy r outcome p).tree.older in
      (
        chain-enough s.contexts older n (suc c) c h (omega arith),
        chain-IsRooted s.contexts older (suc c) c (omega arith),
      )
