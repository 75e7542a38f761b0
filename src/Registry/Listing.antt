-- ===== src/Registry/Listing.antt =====
-- Names and List: the order of the names, and that every name listed is found.
use stc_go.Base.{
  ◌≡◌, refl, true, false, is_some, List, [], ◌∷◌, map, All, arith, Bool-cases, inl, inr,
}
use stc_go.Base.Assoc.{Assoc, lookup}
use stc_go.Key.{Text, Text-discrete}
use stc_go.Registry.{
  Registry, Entry, text_leb, insert_name, sort_names, value_of, find, names, values_of, list,
}

-- The name is at most the first of the list.
abbrev pub Leads : Text → List Text → Type 0
Leads n [] = Unit {0}
Leads n (x ∷ xs) = text_leb n x ≡ true

-- Each name is at most the next one.
abbrev pub IsOrdered : List Text → Type 0
IsOrdered [] = Unit {0}
IsOrdered (x ∷ xs) = Leads x xs × IsOrdered xs

text_leb-total : (s t : Text) → text_leb s t ≡ false → text_leb t s ≡ true
unfolding text_leb
text_leb-total [] t e = cc
text_leb-total (c ∷ cs) [] e = refl
text_leb-total (c ∷ cs) (d ∷ ds) e = ground (arith, text_leb-total cs ds)

Leads-insert_name :
    (n m : Text) (xs : List Text) → text_leb n m ≡ true → Leads n xs → Leads n (insert_name m xs)
unfolding insert_name
Leads-insert_name n m [] h k = h
Leads-insert_name n m (x ∷ xs) h k = elim (Bool-cases (text_leb m x)) [
  | inl b ↦ rw b h
  | inr b ↦ rw b k
]

insert_name-IsOrdered : (n : Text) (xs : List Text) → IsOrdered xs → IsOrdered (insert_name n xs)
unfolding insert_name
insert_name-IsOrdered n [] h = (tt, tt)
insert_name-IsOrdered n (x ∷ xs) h = elim (Bool-cases (text_leb n x)) [
  | inl b ↦ rw b (b, h)
  | inr b ↦
      rw b (Leads-insert_name x n xs (text_leb-total n x b) h.0, insert_name-IsOrdered n xs h.1)
]

pub sort_names-IsOrdered : (xs : List Text) → IsOrdered (sort_names xs)
unfolding sort_names
sort_names-IsOrdered [] = tt
sort_names-IsOrdered (x ∷ xs) = insert_name-IsOrdered x (sort_names xs) (sort_names-IsOrdered xs)

module _ (P : Text → Type 0) where
  pub All-insert_name : (n : Text) (xs : List Text) → P n → All P xs → All P (insert_name n xs)
  unfolding insert_name
  All-insert_name n [] h k = (h, tt)
  All-insert_name n (x ∷ xs) h k = elim (Bool-cases (text_leb n x)) [
    | inl b ↦ rw b (h, k)
    | inr b ↦ rw b (k.0, All-insert_name n xs h k.1)
  ]

  pub All-sort_names : (xs : List Text) → All P xs → All P (sort_names xs)
  unfolding sort_names
  All-sort_names [] k = tt
  All-sort_names (x ∷ xs) k = All-insert_name x (sort_names xs) k.0 (All-sort_names xs k.1)

module _ {A : Type 0} where
  abbrev pub Held : Assoc Text (Entry A) → Text → Type 0
  Held m n = is_some (lookup Text-discrete n m) ≡ true

  Held-later :
      (j : Text) (v : Entry A) (m : Assoc Text (Entry A)) (ns : List Text)
      → All (Held m) ns
      → All (Held ((j, v) ∷ m)) ns
  unfolding lookup
  Held-later j v m [] h = tt
  Held-later j v m (n ∷ ns) h = (ground (arith, h.0), Held-later j v m ns h.1)

  pub All-Held : (m : Assoc Text (Entry A)) → All (Held m) (map (λ e. e.0) m)
  unfolding lookup
  All-Held [] = tt
  All-Held ((j, v) ∷ m) = (ground arith, Held-later j v m (map (λ e. e.0) m) (All-Held m))

  found :
      (r : Registry A) (ns : List Text)
      → All (Held r.entries) ns
      → All (λ o. is_some o ≡ true) (values_of r ns)
  unfolding values_of find value_of
  found r [] h = tt
  found r (n ∷ ns) h = (ground (arith, h.0), found r ns h.1)

  -- The names are in the order of their bytes, and every value that is listed is there.
  pub names-IsOrdered :
      (r : Registry A) → IsOrdered (names r) × All (λ o. is_some o ≡ true) (list r)
  unfolding names list
  names-IsOrdered r = (
    sort_names-IsOrdered (map (λ e. e.0) r.entries),
    found r _ (All-sort_names (Held r.entries) (map (λ e. e.0) r.entries) (All-Held r.entries)),
  )
