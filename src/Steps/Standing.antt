-- ===== src/Steps/Standing.antt =====
-- What a context provides, and what it listens to, ends with it; and the trace is in order.
use stc_go.Base.{ℕ, ◌≡◌, Option, All, All-imp, false}
use stc_go.Key.{Text, Error, Reflect}
use stc_go.Store.{ProvKey, Shared, entries, listeners_of}
use stc_go.Unwind.Spared.{unw}
use stc_go.Trace.Numbers.{IsLog}
use stc_go.Steps.{is_callers, Reach}
use stc_go.Steps.Tidy.{Reach-IsTidy}

module _ (r : Reflect) (outcome : ℕ → Option Error) where
  -- In every state that an application can come to from New, where each inverse that an Apply has
  -- returned is a function of its own, every entry that is provided and every listener belongs to
  -- a scope that was not unwound.
  pub Reach-stands :
      (s : Shared) (pk : ProvKey) (q : Text)
      → Reach r outcome is_callers s
      → All (λ e. unw s e.owner ≡ false) (entries s.provides pk)
        × All (λ l. unw s l.owner ≡ false) (listeners_of s.listeners q)
  Reach-stands s pk q p =
      let v = (Reach-IsTidy r outcome p).heard in
      (
        All-imp _ _ (λ e h. h.1) (entries s.provides pk) (v.standing pk),
        All-imp _ _ (λ l h. h.0.1) (listeners_of s.listeners q) (v.listening q),
      )

  -- In every state that an application can come to from New, where each inverse that an Apply has
  -- returned is a function of its own, the trace is not longer than its bound, and the numbers of
  -- its events rise strictly and do not exceed the shared counter.
  pub Reach-IsLog : (s : Shared) → Reach r outcome is_callers s → IsLog s.seq s.trace
  Reach-IsLog s p = (Reach-IsTidy r outcome p).log
