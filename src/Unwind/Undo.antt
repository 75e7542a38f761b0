-- ===== src/Unwind/Undo.antt =====
-- The inverse that `Provide` returns undoes it.
use stc_go.Base.{ℕ, ◌≤◌, ◌≡◌, sym, ap, ◌∙◌, Option, All}
use stc_go.Key.{Key, Any, Reflect, Error}
use stc_go.Store.{ProvKey, Inverse, unprovide, Shared, entries}
use stc_go.Services.{ok, prov_key, add_provide, provide}
use stc_go.Services.Entries.{new_entry}
use stc_go.Services.Visible.{provided, removed}
use stc_go.Unwind.{run_inverse}

withdraw :
    (outcome : ℕ → Option Error) (s : Shared) (c : ℕ) (pk qk : ProvKey) (v : Any)
    → All (λ x. x.seq ≤ s.seq) (entries s.provides pk)
    → entries
        (run_inverse outcome (add_provide s c pk v).1 (unprovide pk (new_entry s c v))).1.provides
        qk
      ≡ entries s.provides qk
unfolding run_inverse
withdraw outcome s c pk qk v old = removed s c pk qk v old

-- Where Provide succeeds, and the numbers of the entries under its key do not exceed the shared
-- counter, the inverse that it returns puts the entries of every key back as they were.
pub run_inverse-provide :
    (outcome : ℕ → Option Error) (r : Reflect) (s u : Shared) (c : ℕ) (key : Key) (v : Any)
    (i : Inverse) (qk : ProvKey)
    → provide r s c key v ≡ (ok i, u)
    → All (λ x. x.seq ≤ s.seq) (entries s.provides (prov_key s c key))
    → entries (run_inverse outcome u i).1.provides qk ≡ entries s.provides qk
run_inverse-provide outcome r s u c key v i qk e old =
    let (p, q) = provided r s u c key v i e in
    sym (ap (λ x. entries (run_inverse outcome x i).1.provides qk) q)
    ∙ sym (
        ap
          (λ x.
            entries (run_inverse outcome (add_provide s c (prov_key s c key) v).1 x).1.provides qk)
          p)
    ∙ withdraw outcome s c (prov_key s c key) qk v old
