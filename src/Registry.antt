-- ===== src/Registry.antt =====
-- registry/registry.go: the stable registry, whose entries carry the generation of their
-- registration.
pub mod Generations
pub mod Listing
pub mod Once
use stc_go.Base.{
  ℕ, ◌+◌, ◌%◌, ◌^◌, Bool, true, false, Option, none, some, List, [], ◌∷◌, map, if◌then◌else◌, ◌==◌,
  ltb,
}
use stc_go.Base.Assoc.{lookup, insert, delete}
use stc_go.Key.{Text, Text-discrete}
use stc_go.Key
use stc_go.Store.{Component}

abbrev pub u64_mod : ℕ
u64_mod = 2 ^ 64

pub record Entry {ℓ} (A : Type ℓ) : Type ℓ where
  pub v : A
  pub seq : ℕ

pub record Registry {ℓ} (A : Type ℓ) : Type ℓ where
  pub entries : List (Text × Entry A)
  pub seq : ℕ

-- The comparison of sort.Strings, byte by byte.
unfoldable pub text_leb : Text → Text → Bool
text_leb [] t = true
text_leb (c ∷ cs) [] = false
text_leb (c ∷ cs) (d ∷ ds) =
    let rest = text_leb cs ds in if ltb c d then true else if c == d then rest else false

unfoldable pub insert_name : Text → List Text → List Text
unfolding text_leb
insert_name n [] = n ∷ []
insert_name n (x ∷ xs) = if text_leb n x then n ∷ x ∷ xs else x ∷ insert_name n xs

unfoldable pub sort_names : List Text → List Text
unfolding insert_name
sort_names [] = []
sort_names (x ∷ xs) = insert_name x (sort_names xs)

module _ {A : Type 0} where
  -- New
  unfoldable pub empty : Registry A
  empty = record { entries = []; seq = 0 }

  -- Register: the number that the inverse captures, and the registry. The counter is a uint64.
  unfoldable pub register : Registry A → Text → A → ℕ × Registry A
  register r name v =
      let n = (r.seq + 1) % u64_mod in
      (
        n,
        record {
          entries = insert Text-discrete name (record { v = v; seq = n }) r.entries;
          seq = n;
        },
      )

  unregister_found : Registry A → Text → ℕ → Option (Entry A) → Registry A
  unregister_found r name n none = r
  unregister_found r name n (some e) =
      if e.seq == n then record r { entries = delete Text-discrete name r.entries } else r

  -- The inverse that `Register` returned, for the name and the number that it captured.
  unfoldable pub unregister : Registry A → Text → ℕ → Registry A
  unfolding unregister_found
  unregister r name n = unregister_found r name n (lookup Text-discrete name r.entries)

  value_of : Option (Entry A) → Option A
  value_of none = none
  value_of (some e) = some e.v

  -- Lookup
  unfoldable pub find : Registry A → Text → Option A
  unfolding value_of
  find r name = value_of (lookup Text-discrete name r.entries)

  -- Names
  unfoldable pub names : Registry A → List Text
  names r = sort_names (map (λ e. e.0) r.entries)

  values_of : Registry A → List Text → List (Option A)
  values_of r [] = []
  values_of r (n ∷ ns) = find r n ∷ values_of r ns

  -- List: the values in the order of the names; each name is found.
  unfoldable pub list : Registry A → List (Option A)
  unfolding values_of
  list r = values_of r (names r)

-- Component; `apply` names its Apply, which is `apply_provider` of Services with the key and the
-- pointer of a new registry.
unfoldable pub component : Text → Key.Key → ℕ → Component
component name key apply = record {
  name = name;
  inject = [];
  provide = key ∷ [];
  apply = some apply;
}
