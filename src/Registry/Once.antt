-- ===== src/Registry/Once.antt =====
-- Names: each name that is registered, once, in order.
use stc_go.Base.{
  ℕ, ◌≡◌, ◌≢◌, ◌↔◌, sym, ◌∙◌, subst, true, false, is_some, List, [], ◌∷◌, map, All, In, arith,
  Bool-cases, inl, inr, ite,
}
use stc_go.Base.Assoc.{Assoc, lookup, insert, delete}
use stc_go.Key.{Text, Text-discrete}
use stc_go.Registry.{
  Registry, Entry, text_leb, insert_name, sort_names, value_of, find, names, empty, register,
  unregister, unregister_found,
}
use stc_go.Registry.Listing.{
  IsOrdered, sort_names-IsOrdered, All-insert_name, All-sort_names, Held, All-Held,
}

-- Each name comes before the next one, and is not the same.
abbrev pub IsStrict : List Text → Type 0
IsStrict [] = Unit {0}
IsStrict (x ∷ []) = Unit {0}
IsStrict (x ∷ y ∷ xs) = (text_leb y x ≡ false) × IsStrict (y ∷ xs)

abbrev IsDistinct : List Text → Type 0
IsDistinct [] = Unit {0}
IsDistinct (x ∷ xs) = All (λ n. x ≢ n) xs × IsDistinct xs

text_leb-antisym : (s t : Text) → text_leb s t ≡ true → text_leb t s ≡ true → s ≡ t
unfolding text_leb
text_leb-antisym [] [] e k = cc
text_leb-antisym [] (d ∷ ds) e k = cc
text_leb-antisym (c ∷ cs) [] e k = cc
text_leb-antisym (c ∷ cs) (d ∷ ds) e k = ground (arith, text_leb-antisym cs ds)

strict : (xs : List Text) → IsOrdered xs → IsDistinct xs → IsStrict xs
strict [] o d = tt
strict (x ∷ []) o d = tt
strict (x ∷ y ∷ xs) o d = elim (Bool-cases (text_leb y x)) [
  | inl e ↦ absurd (d.0.0 (text_leb-antisym x y o.0 e))
  | inr e ↦ (e, strict (y ∷ xs) o.1 d.1)
]

insert_name-IsDistinct :
    (n : Text) (xs : List Text)
    → All (λ m. n ≢ m) xs
    → IsDistinct xs
    → IsDistinct (insert_name n xs)
unfolding insert_name
insert_name-IsDistinct n [] h d = (tt, tt)
insert_name-IsDistinct n (x ∷ xs) h d = elim (Bool-cases (text_leb n x)) [
  | inl e ↦ rw e (h, d)
  | inr e ↦ rw e (
    All-insert_name (λ m. x ≢ m) n xs (λ k. h.0 (sym k)) d.0,
    insert_name-IsDistinct n xs h.1 d.1,
  )
]

sort_names-IsDistinct : (xs : List Text) → IsDistinct xs → IsDistinct (sort_names xs)
unfolding sort_names
sort_names-IsDistinct [] d = tt
sort_names-IsDistinct (x ∷ xs) d =
    insert_name-IsDistinct x (sort_names xs) (All-sort_names (λ m. x ≢ m) xs d.0)
      (sort_names-IsDistinct xs d.1)

In-insert_name : (a n : Text) (xs : List Text) → In a (n ∷ xs) → In a (insert_name n xs)
unfolding insert_name
In-insert_name a n [] m = m
In-insert_name a n (x ∷ xs) m = elim (Bool-cases (text_leb n x)) [
  | inl e ↦ rw e m
  | inr e ↦ rw e (elim m [
    | inl h ↦ inr (In-insert_name a n xs (inl h))
    | inr (inl h) ↦ inl h
    | inr (inr k) ↦ inr (In-insert_name a n xs (inr k))
  ])
]

In-sort_names : (a : Text) (xs : List Text) → In a xs → In a (sort_names xs)
unfolding sort_names
In-sort_names a [] m = m
In-sort_names a (x ∷ xs) (inl h) = In-insert_name a x (sort_names xs) (inl h)
In-sort_names a (x ∷ xs) (inr m) = In-insert_name a x (sort_names xs) (inr (In-sort_names a xs m))

All-In : (P : Text → Type 0) (a : Text) (xs : List Text) → All P xs → In a xs → P a
All-In P a [] h m = absurd m
All-In P a (x ∷ xs) h (inl e) = subst P (sym e) h.0
All-In P a (x ∷ xs) h (inr m) = All-In P a xs h.1 m

module _ {A : Type 0} where
  abbrev keys : Assoc Text (Entry A) → List Text
  keys m = map (λ e. e.0) m

  module _ (P : Text → Type 0) (k : Text) where
    All-insert :
        (v : Entry A) (m : Assoc Text (Entry A))
        → P k
        → All P (keys m)
        → All P (keys (insert Text-discrete k v m))
    unfolding insert
    All-insert v [] p h = (p, tt)
    All-insert v ((j, w) ∷ m) p h = ground (arith, All-insert v m p h.1)

    All-delete :
        (m : Assoc Text (Entry A)) → All P (keys m) → All P (keys (delete Text-discrete k m))
    unfolding delete
    All-delete [] h = tt
    All-delete ((j, w) ∷ m) h = ground (arith, All-delete m h.1)

  insert-IsDistinct :
      (k : Text) (v : Entry A) (m : Assoc Text (Entry A))
      → IsDistinct (keys m)
      → IsDistinct (keys (insert Text-discrete k v m))
  unfolding insert
  insert-IsDistinct k v [] d = (tt, tt)
  insert-IsDistinct k v ((j, w) ∷ m) d =
      elim (Text-discrete j k)
        as (λ t. IsDistinct (keys (ite t ((k, v) ∷ m) ((j, w) ∷ insert Text-discrete k v m)))) [
          | yes p ↦ (subst (λ n. All (λ x. n ≢ x) (keys m)) p d.0, d.1)
          | no p ↦ (All-insert (λ n. j ≢ n) k v m p d.0, insert-IsDistinct k v m d.1)
        ]

  delete-IsDistinct :
      (k : Text) (m : Assoc Text (Entry A))
      → IsDistinct (keys m)
      → IsDistinct (keys (delete Text-discrete k m))
  unfolding delete
  delete-IsDistinct k [] d = tt
  delete-IsDistinct k ((j, w) ∷ m) d =
      let rest = delete Text-discrete k m in
      elim (Text-discrete j k) as (λ t. IsDistinct (keys (ite t rest ((j, w) ∷ rest)))) [
        | yes p ↦ delete-IsDistinct k m d.1
        | no p ↦ (All-delete (λ n. j ≢ n) k m d.0, delete-IsDistinct k m d.1)
      ]

  In-keys :
      (a : Text) (m : Assoc Text (Entry A))
      → is_some (lookup Text-discrete a m) ≡ true
      → In a (keys m)
  unfolding lookup
  In-keys a [] h = cc
  In-keys a ((j, v) ∷ m) h = ground (arith, In-keys a m)

  -- The registries that registrations and withdrawals lead to.
  pub data Kept : Registry A → Type 0 where
    fresh : Kept empty
    registers : {r : Registry A} (name : Text) (v : A) → Kept r → Kept (register r name v).1
    withdraws : {r : Registry A} (name : Text) (n : ℕ) → Kept r → Kept (unregister r name n)

  Kept-IsDistinct : {r : Registry A} → Kept r → IsDistinct (keys r.entries)
  unfolding empty register unregister unregister_found
  Kept-IsDistinct fresh = tt
  Kept-IsDistinct (registers {r} name v k) = insert-IsDistinct name _ r.entries (Kept-IsDistinct k)
  Kept-IsDistinct (withdraws {r} name n k) =
      ground (arith, delete-IsDistinct name r.entries (Kept-IsDistinct k), Kept-IsDistinct k)

  found :
      (r : Registry A) (a : Text) → is_some (find r a) ≡ is_some (lookup Text-discrete a r.entries)
  unfolding find value_of
  found r a = ground arith

  -- In a registry that registrations and calls of their inverses lead to from an empty one, Names
  -- is strictly ascending in the order of the bytes, so that each name stands in it once, and a
  -- name stands in it exactly if Lookup finds it.
  pub names-lists :
      (r : Registry A)
      → Kept r
      → IsStrict (names r) × ((a : Text) → In a (names r) ↔ (is_some (find r a) ≡ true))
  unfolding names
  names-lists r k =
      let ns = keys r.entries in
      (
        strict (sort_names ns) (sort_names-IsOrdered ns)
            (sort_names-IsDistinct ns (Kept-IsDistinct k)),
        λ a. (
          λ m.
              found r a
              ∙ All-In (Held r.entries) a (sort_names ns)
                  (All-sort_names (Held r.entries) ns (All-Held r.entries)) m,
          λ h. In-sort_names a ns (In-keys a r.entries (sym (found r a) ∙ h)),
        ),
      )
