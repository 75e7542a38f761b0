-- ===== src/Wasm/Lifecycle/Alone.antt =====
-- A component with a reference and one without do the same, but for the reference.
use stc_go.Base.{ℕ, ◌≡◌, refl, Option, none, some, [], ◌∷◌}
use stc_go.Wasm.Runtime.{Options, instance_config}
use stc_go.Wasm.Instance.{Instance, Instantiated, instance_of, refused, Wazero}
use stc_go.Wasm.Lifecycle.{
  initialize_name, start_name, Cell, Applied, enter_all, finished, begun, apply, finished_alone,
  begun_alone, apply_alone,
}

module _ {W : Type 0} where
  -- What was done, and to which world, the reference apart.
  abbrev SameButActive : Applied W × Cell W → Applied W × Cell W → Type 0
  SameButActive (a, s) (b, t) = (a ≡ b) × (s.world ≡ t.world) × (s.runtime ≡ t.runtime)

  finished-alone :
      (m : Instance W) (c : ℕ) (x : Option ℕ × Cell W)
      → SameButActive (finished m c x) (finished_alone m x)
  unfolding finished finished_alone
  finished-alone m c (some n, s) = (refl, refl, refl)
  finished-alone m c (none, s) = (refl, refl, refl)

  begun-alone :
      (s : Cell W) (c : ℕ) (x : Instantiated W × W)
      → SameButActive (begun s c x) (begun_alone s c x)
  unfolding begun begun_alone
  begun-alone s c (refused n, w) = (refl, refl, refl)
  begun-alone s c (instance_of m, w) =
      finished-alone m c
        (enter_all (record s { world = w }) c m (initialize_name ∷ start_name ∷ []))

  apply-apply_alone :
      (z : Wazero W) (s : Cell W) (src : ℕ) (opts : Options) (c : ℕ)
      → SameButActive (apply z s src opts c) (apply_alone z s src opts c)
  unfolding apply apply_alone
  apply-apply_alone z s src opts c =
      let (name, rt) = instance_config s.runtime opts.name in
      begun-alone (record s { runtime = rt }) c (z.instantiate (some c) s.world src name)
