-- ===== src/Wasm/Lifecycle/Active.antt =====
-- What the reference of a handle holds after Apply and after its inverse.
use stc_go.Base.{ℕ, ◌≡◌, refl, ◌∙◌, subst, Option, none, some, List, [], ◌∷◌}
use stc_go.Key.{Text}
use stc_go.Wasm.Runtime.{Options, instance_config}
use stc_go.Wasm.Instance.{
  Called, returned, trapped, Function, Instance, Instantiated, instance_of, refused, Wazero,
}
use stc_go.Wasm.Lifecycle.{
  initialize_name, start_name, stop_name, Cell, Applied, running, failed, entered, enter_with,
  enter_all, closed, finished, begun, apply, stop,
}

module _ {W : Type 0} where
  -- What the reference holds after Apply, where it held `old` before.
  abbrev pub active_after :
      Applied W → ℕ → Option (Instance W × Option ℕ) → Option (Instance W × Option ℕ)
  active_after (running m) c old = some (m, some c)
  active_after (failed e) c old = old

  entered-active : (s : Cell W) (x : Called × W) → (entered s x).1.active ≡ s.active
  unfolding entered
  entered-active s (returned rs, w) = refl
  entered-active s (trapped n, w) = refl

  enter_with-active :
      (s : Cell W) (c : ℕ) (f : Option (Function W)) → (enter_with s c f).1.active ≡ s.active
  unfolding enter_with
  enter_with-active s c none = refl
  enter_with-active s c (some f) = entered-active s (f.call (some c) s.world [])

  enter_all-active :
      (s : Cell W) (c : ℕ) (m : Instance W) (es : List Text)
      → (enter_all s c m es).1.active ≡ s.active
  unfolding enter_all
  enter_all-active s c m [] = refl
  enter_all-active s c m (e ∷ es) =
      let (trap, t) = enter_with s c (m.exported e) in
      let here = enter_with-active s c (m.exported e) in
      elim trap
        as (λ x.
          (elim x as (λ y. Option ℕ × Cell W) [
            | some n ↦ (some n, t)
            | none ↦ enter_all t c m es
          ]).1.active
          ≡ s.active) [ some n ↦ here | none ↦ enter_all-active t c m es ∙ here ]

  -- The reference after Apply is as it should be.
  Holds : ℕ → Option (Instance W × Option ℕ) → Applied W × Cell W → Type 0
  Holds c old (a, s) = s.active ≡ active_after a c old

  finished-Holds :
      (m : Instance W) (c : ℕ) (x : Option ℕ × Cell W) → Holds c x.1.active (finished m c x)
  unfolding finished closed Holds
  finished-Holds m c (some n, s) = refl
  finished-Holds m c (none, s) = refl

  begun-Holds : (s : Cell W) (c : ℕ) (x : Instantiated W × W) → Holds c s.active (begun s c x)
  unfolding begun Holds
  begun-Holds s c (refused n, w) = refl
  begun-Holds s c (instance_of m, w) =
      let t = record s { world = w } in
      let x = enter_all t c m (initialize_name ∷ start_name ∷ []) in
      subst (λ o. Holds c o (finished m c x))
        (enter_all-active t c m (initialize_name ∷ start_name ∷ [])) (finished-Holds m c x)

  -- After Apply of a WASM component the reference of its handle holds the new instance with the
  -- context of its fiber, or, where Apply has failed, what it held before; the inverse that Apply
  -- returns leaves it empty.
  pub apply-active :
      (z : Wazero W) (s : Cell W) (src : ℕ) (opts : Options) (c : ℕ) (m : Instance W)
      → let (a, t) = apply z s src opts c in
        (t.active ≡ active_after a c s.active) × ((stop m c t).1.active ≡ none)
  unfolding apply stop closed Holds
  apply-active z s src opts c m =
      let (name, rt) = instance_config s.runtime opts.name in
      let t = (apply z s src opts c).1 in
      (
        begun-Holds (record s { runtime = rt }) c (z.instantiate (some c) s.world src name),
        enter_with-active (record t { active = none }) c (m.exported stop_name),
      )
