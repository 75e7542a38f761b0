-- ===== src/Services/WellFormed.antt =====
-- Definition 58 of the paper: of each key and realm there is at most one fiber that provides.
use stc_go.Base.{
  ℕ, ◌≡◌, refl, inl, inr, ◌⊎◌, Option, none, some, List, [], ◌∷◌, ◌++◌, All, All-append,
  All-drop_first, arith, ite,
}
use stc_go.Key.{Reflect, Key, Any}
use stc_go.Store.{Context, ProvKey, ProvKey-discrete, ProvideEntry, same, Shared, entries}
use stc_go.Services.{
  foreign_provider, prov_key, add_provide, checked_provide, provide, remove_provide,
}
use stc_go.Services.Entries.{
  contexts-remove_provide, new_entry, without, entries-add_provide, entries-remove_provide,
}

-- The entry is the fiber's, or no fiber's.
abbrev pub OwnedBy : (ℕ → Context) → ℕ → ProvideEntry → Type 0
OwnedBy h o e = ((h e.owner).fiber ≡ none) ⊎ ((h e.owner).fiber ≡ some o)

-- One fiber owns all the entries that fibers own.
abbrev pub Exclusive : (ℕ → Context) → List ProvideEntry → Type 0
Exclusive h es = (o : ℕ) × All (OwnedBy h o) es

pub record IsWellFormed (s : Shared) : Type 0 where
  pub exclusive : (pk : ProvKey) → Exclusive s.contexts (entries s.provides pk)

foreign_none :
    (h : ℕ → Context) (o : ℕ) (es : List ProvideEntry)
    → foreign_provider h (some o) es ≡ none
    → All (OwnedBy h o) es
unfolding foreign_provider
foreign_none h o [] e = tt
foreign_none h o (x ∷ xs) e = (ground arith, foreign_none h o xs (ground arith))

unowned :
    (h : ℕ → Context) (o : ℕ) (es : List ProvideEntry)
    → foreign_provider h none es ≡ none
    → All (OwnedBy h o) es
unfolding foreign_provider
unowned h o [] e = tt
unowned h o (x ∷ xs) e = (ground arith, unowned h o xs (ground arith))

added :
    (h : ℕ → Context) (f : Option ℕ) (es : List ProvideEntry) (e : ProvideEntry)
    → (h e.owner).fiber ≡ f
    → foreign_provider h f es ≡ none
    → Exclusive h (es ++ e ∷ [])
added h none es e own none' = (0, All-append _ es _ (unowned h 0 es none') (inl own, tt))
added h (some o) es e own none' = (o, All-append _ es _ (foreign_none h o es none') (inr own, tt))

-- Ownership is read off the contexts' fibers alone.
transfer :
    (h k : ℕ → Context) (o : ℕ) (es : List ProvideEntry)
    → ((c : ℕ) → (k c).fiber ≡ (h c).fiber)
    → All (OwnedBy h o) es
    → All (OwnedBy k o) es
transfer h k o [] same_fibers p = tt
transfer h k o (x ∷ xs) same_fibers p =
    (rw (same_fibers x.owner) p.0, transfer h k o xs same_fibers p.1)

pub Exclusive-transfer :
    (h k : ℕ → Context) (es : List ProvideEntry)
    → ((c : ℕ) → (k c).fiber ≡ (h c).fiber)
    → Exclusive h es
    → Exclusive k es
Exclusive-transfer h k es same_fibers (o, p) = (o, transfer h k o es same_fibers p)

pub fiber-add_provide :
    (s : Shared) (c : ℕ) (pk : ProvKey) (v : Any) (x : ℕ)
    → ((add_provide s c pk v).1.contexts x).fiber ≡ (s.contexts x).fiber
unfolding add_provide
fiber-add_provide s c pk v x = ground arith

pub fiber-remove_provide :
    (s : Shared) (pk : ProvKey) (e : ProvideEntry) (x : ℕ)
    → ((remove_provide s pk e).contexts x).fiber ≡ (s.contexts x).fiber
fiber-remove_provide s pk e x = rw (contexts-remove_provide s pk e)

add_provide-IsWellFormed :
    (s : Shared) (c : ℕ) (pk : ProvKey) (v : Any)
    → foreign_provider s.contexts (s.contexts c).fiber (entries s.provides pk) ≡ none
    → IsWellFormed s
    → IsWellFormed (add_provide s c pk v).1
add_provide-IsWellFormed s c pk v clear w = record { exclusive = all }
  where
    lists : (qk : ProvKey) → Exclusive s.contexts (entries (add_provide s c pk v).1.provides qk)
    lists qk =
        rw (entries-add_provide s c pk qk v)
          (elim (ProvKey-discrete pk qk)
            as (λ d.
              Exclusive s.contexts
                (ite d (entries s.provides pk ++ new_entry s c v ∷ []) (entries s.provides qk))) [
                  | yes p ↦
                      added s.contexts (s.contexts c).fiber (entries s.provides pk)
                        (new_entry s c v) refl clear
                  | no p ↦ w.exclusive qk
                ])

    all :
        (qk : ProvKey)
        → Exclusive (add_provide s c pk v).1.contexts (entries (add_provide s c pk v).1.provides qk)
    all qk =
        Exclusive-transfer s.contexts (add_provide s c pk v).1.contexts _
          (fiber-add_provide s c pk v) (lists qk)

checked-IsWellFormed :
    (s : Shared) (c : ℕ) (pk : ProvKey) (v : Any) (other : Option ℕ)
    → foreign_provider s.contexts (s.contexts c).fiber (entries s.provides pk) ≡ other
    → IsWellFormed s
    → IsWellFormed (checked_provide other s c pk v).1
unfolding checked_provide
checked-IsWellFormed s c pk v none e w = add_provide-IsWellFormed s c pk v e w
checked-IsWellFormed s c pk v (some o) e w = w

-- From a state in which each key and realm has at most one fiber that provides it, Provide leads
-- to such a state, on every branch.
pub provide-IsWellFormed :
    (r : Reflect) (s : Shared) (c : ℕ) (k : Key) (v : Any)
    → IsWellFormed s
    → IsWellFormed (provide r s c k v).1
unfolding provide
provide-IsWellFormed r s c k v w =
    ground (arith, checked-IsWellFormed s c (prov_key s c k) v _ refl w)

-- From a state in which each key and realm has at most one fiber that provides it, the withdrawal
-- of an entry leads to such a state, whether or not the entry is still there.
pub remove_provide-IsWellFormed :
    (s : Shared) (pk : ProvKey) (e : ProvideEntry)
    → IsWellFormed s
    → IsWellFormed (remove_provide s pk e)
remove_provide-IsWellFormed s pk e w = record { exclusive = all }
  where
    lists : (qk : ProvKey) → Exclusive s.contexts (entries (remove_provide s pk e).provides qk)
    lists qk =
        rw (entries-remove_provide s pk qk e)
          (elim (ProvKey-discrete pk qk)
            as (λ d.
              Exclusive s.contexts
                (ite d (without e (entries s.provides pk)) (entries s.provides qk))) [
                  | yes p ↦
                      ((w.exclusive pk).0, All-drop_first _ (λ x. same x e) _ (w.exclusive pk).1)
                  | no p ↦ w.exclusive qk
                ])

    all :
        (qk : ProvKey)
        → Exclusive (remove_provide s pk e).contexts (entries (remove_provide s pk e).provides qk)
    all qk =
        Exclusive-transfer s.contexts (remove_provide s pk e).contexts _
          (fiber-remove_provide s pk e) (lists qk)
