-- ===== src/Registry/Generations.antt =====
-- Registration, lookup and the inverse: an inverse withdraws its own registration, once, and never
-- a newer one of the same name.
use stc_go.Base.{ℕ, ◌+◌, ◌%◌, ◌≤◌, ◌<◌, ◌≡◌, ite, none, some, arith}
use stc_go.Base.Assoc.{insert, lookup-insert, lookup-delete}
use stc_go.Key.{Text, Text-discrete}
use stc_go.Registry.{Registry, Entry, u64_mod, register, unregister, find}

module _ {A : Type 0} where
  -- After a registration the new value is found under its name, and the old ones elsewhere.
  pub find-register :
      (r : Registry A) (name q : Text) (v : A)
      → find (register r name v).1 q ≡ ite (Text-discrete name q) (some v) (find r q)
  unfolding find register
  find-register r name q v = ground (
    arith,
    lookup-insert Text-discrete q name (record { v = v; seq = (register r name v).0 }) r.entries,
  )

  -- The inverse of the latest registration of a name takes it out, and leaves every other name.
  pub find-unregister-register :
      (r : Registry A) (name q : Text) (v : A)
      → find (unregister (register r name v).1 name (register r name v).0) q
        ≡ ite (Text-discrete name q) none (find r q)
  unfolding find unregister register
  find-unregister-register r name q v =
      let e : Entry A = record { v = v; seq = (r.seq + 1) % u64_mod } in
      let after = insert Text-discrete name e r.entries in
      ground (
        arith,
        lookup-insert Text-discrete name name e r.entries,
        lookup-insert Text-discrete q name e r.entries,
        lookup-delete Text-discrete q name after,
      )

  -- While the counter does not wrap, the inverse of an earlier registration leaves a newer one of
  -- its name in place.
  pub unregister_superseded :
      (r : Registry A) (name : Text) (w : A) (n : ℕ)
      → n ≤ r.seq
      → r.seq + 1 < u64_mod
      → unregister (register r name w).1 name n ≡ (register r name w).1
  unfolding unregister register
  unregister_superseded r name w n h k = ground (
    arith,
    lookup-insert Text-discrete name name (record { v = w; seq = (r.seq + 1) % u64_mod }) r.entries,
  )

  -- The inverse of a registration may be called again: the second call does nothing.
  pub unregister_twice :
      (r : Registry A) (name : Text) (n : ℕ)
      → unregister (unregister r name n) name n ≡ unregister r name n
  unfolding unregister
  unregister_twice r name n = ground (arith, lookup-delete Text-discrete name name r.entries)
