-- ===== src/Services/Entries.antt =====
-- What `Provide` and `removeProvide` do to the lists of entries, key by key.
use stc_go.Base.{◌≡◌, refl, ℕ, ◌+◌, ite, List, [], ◌∷◌, ◌++◌, false, arith, drop_first}
use stc_go.Key.{Any}
use stc_go.Store.{ProvKey, ProvKey-discrete, ProvideEntry, same, Shared, entries}
use stc_go.Store.Maps.{entries-insert, entries-delete}
use stc_go.Services.{add_provide, has_same, put_entries, remove_provide}

abbrev pub new_entry : Shared → ℕ → Any → ProvideEntry
new_entry s c v = record { ident = record { owner = c; seq = s.seq + 1 }; value = v }

-- The loop over one list of entries that `removeProvide` runs.
abbrev pub without : ProvideEntry → List ProvideEntry → List ProvideEntry
without e = drop_first (λ x. same x e)

pub entries-add_provide :
    (s : Shared) (c : ℕ) (pk qk : ProvKey) (v : Any)
    → entries (add_provide s c pk v).1.provides qk
      ≡ ite
          (ProvKey-discrete pk qk)
          (entries s.provides pk ++ new_entry s c v ∷ [])
          (entries s.provides qk)
unfolding add_provide
entries-add_provide s c pk qk v =
    ground (arith, entries-insert pk qk (entries s.provides pk ++ new_entry s c v ∷ []) s.provides)

entries-put :
    (pk qk : ProvKey) (es : List ProvideEntry) (s : Shared)
    → entries (put_entries pk es s).provides qk
      ≡ ite (ProvKey-discrete pk qk) es (entries s.provides qk)
unfolding put_entries
entries-put pk qk [] s = entries-delete pk qk s.provides
entries-put pk qk (e ∷ es) s = entries-insert pk qk (e ∷ es) s.provides

pub without_absent :
    (e : ProvideEntry) (es : List ProvideEntry) → has_same e es ≡ false → without e es ≡ es
unfolding has_same drop_first
without_absent e [] h = refl
without_absent e (x ∷ xs) h = ground (arith, without_absent e xs)

-- Present or not, the entry is out of its list, and no other list changes.
pub entries-remove_provide :
    (s : Shared) (pk qk : ProvKey) (e : ProvideEntry)
    → entries (remove_provide s pk e).provides qk
      ≡ ite (ProvKey-discrete pk qk) (without e (entries s.provides pk)) (entries s.provides qk)
unfolding remove_provide
entries-remove_provide s pk qk e = ground (
  arith,
  entries-put pk qk (without e (entries s.provides pk)) s,
  without_absent e (entries s.provides pk),
)

contexts-put :
    (pk : ProvKey) (es : List ProvideEntry) (s : Shared)
    → (put_entries pk es s).contexts ≡ s.contexts
unfolding put_entries
contexts-put pk [] s = refl
contexts-put pk (e ∷ es) s = refl

pub contexts-remove_provide :
    (s : Shared) (pk : ProvKey) (e : ProvideEntry) → (remove_provide s pk e).contexts ≡ s.contexts
unfolding remove_provide
contexts-remove_provide s pk e =
    ground (arith, contexts-put pk (without e (entries s.provides pk)) s)
