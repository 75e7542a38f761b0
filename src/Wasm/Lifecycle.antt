-- ===== src/Wasm/Lifecycle.antt =====
-- wasm/wasm.go: Apply of a WASM component and the inverse that it returns, the reference through
-- which a handle reaches the active instance, and the probe.
pub mod Active
pub mod Alone
use stc_go.Base.{ℕ, Option, none, some, or_else, List, [], ◌∷◌}
use stc_go.Key.{Text}
use stc_go.Wasm.Runtime.{Runtime, Options, instance_config}
use stc_go.Wasm.Instance.{
  Called, returned, trapped, Function, Instance, Instantiated, instance_of, refused, Wazero,
}

-- "_initialize", "start" and "stop"
abbrev pub initialize_name : Text
initialize_name = 95 ∷ 105 ∷ 110 ∷ 105 ∷ 116 ∷ 105 ∷ 97 ∷ 108 ∷ 105 ∷ 122 ∷ 101 ∷ []

abbrev pub start_name : Text
start_name = 115 ∷ 116 ∷ 97 ∷ 114 ∷ 116 ∷ []

abbrev pub stop_name : Text
stop_name = 115 ∷ 116 ∷ 111 ∷ 112 ∷ []

-- The runtime, the world of the guests, and the reference (`instanceRef`).
pub record Cell (W : Type 0) : Type 0 where
  pub runtime : Runtime
  pub world : W
  pub active : Option (Instance W × Option ℕ)

pub data LoadError : Type 0 where
  instantiate_error entry_error : ℕ → LoadError

-- The outcome of Apply: the instance, which the inverse captures with its context, or an error.
pub data Applied (W : Type 0) : Type 0 where
  running : Instance W → Applied W
  failed : LoadError → Applied W

module _ {W : Type 0} where
  entered : Cell W → Called × W → Option ℕ × Cell W
  entered s (returned rs, w) = (none, record s { world = w })
  entered s (trapped n, w) = (some n, record s { world = w })

  enter_with : Cell W → ℕ → Option (Function W) → Option ℕ × Cell W
  unfolding entered
  enter_with s c none = (none, s)
  enter_with s c (some f) = entered s (f.call (some c) s.world [])

  -- The loop over "_initialize" and "start": it ends at the first trap.
  unfoldable pub enter_all : Cell W → ℕ → Instance W → List Text → Option ℕ × Cell W
  unfolding enter_with
  enter_all s c m [] = (none, s)
  enter_all s c m (e ∷ es) =
      let (trap, s') = enter_with s c (m.exported e) in
      elim trap [ some n ↦ (some n, s') | none ↦ enter_all s' c m es ]

  closed : Instance W → Cell W → Option ℕ × Cell W
  closed m s = let (e, w) = m.close s.world in (e, record s { world = w })

  finished : Instance W → ℕ → Option ℕ × Cell W → Applied W × Cell W
  unfolding closed
  finished m c (some n, s) = (failed (entry_error n), (closed m s).1)
  finished m c (none, s) = (running m, record s { active = some (m, some c) })

  begun : Cell W → ℕ → Instantiated W × W → Applied W × Cell W
  unfolding finished enter_all
  begun s c (refused n, w) = (failed (instantiate_error n), record s { world = w })
  begun s c (instance_of m, w) =
      finished m c (enter_all (record s { world = w }) c m (initialize_name ∷ start_name ∷ []))

  -- Apply, for a component that `Load` or `Update` made: with a reference.
  unfoldable pub apply : Wazero W → Cell W → ℕ → Options → ℕ → Applied W × Cell W
  unfolding begun
  apply z s src opts c =
      let (name, rt) = instance_config s.runtime opts.name in
      begun (record s { runtime = rt }) c (z.instantiate (some c) s.world src name)

  -- The inverse: the reference is cleared first; then `stop`, whose error is joined with that of
  -- the close.
  unfoldable pub stop : Instance W → ℕ → Cell W → Option ℕ × Cell W
  unfolding enter_with closed
  stop m c s =
      let (e, s') = enter_with (record s { active = none }) c (m.exported stop_name) in
      let (e', s'') = closed m s' in (or_else e e', s'')

  -- Apply of what `Component` makes, which has no reference.
  finished_alone : Instance W → Option ℕ × Cell W → Applied W × Cell W
  unfolding closed
  finished_alone m (some n, s) = (failed (entry_error n), (closed m s).1)
  finished_alone m (none, s) = (running m, s)

  begun_alone : Cell W → ℕ → Instantiated W × W → Applied W × Cell W
  unfolding finished_alone enter_all
  begun_alone s c (refused n, w) = (failed (instantiate_error n), record s { world = w })
  begun_alone s c (instance_of m, w) =
      finished_alone m (enter_all (record s { world = w }) c m (initialize_name ∷ start_name ∷ []))

  unfoldable pub apply_alone : Wazero W → Cell W → ℕ → Options → ℕ → Applied W × Cell W
  unfolding begun_alone
  apply_alone z s src opts c =
      let (name, rt) = instance_config s.runtime opts.name in
      begun_alone (record s { runtime = rt }) c (z.instantiate (some c) s.world src name)

  -- Its inverse
  unfoldable pub stop_alone : Instance W → ℕ → Cell W → Option ℕ × Cell W
  unfolding enter_with closed
  stop_alone m c s =
      let (e, s') = enter_with s c (m.exported stop_name) in
      let (e', s'') = closed m s' in (or_else e e', s'')

  probed : Cell W → Instantiated W × W → Option ℕ × Cell W
  unfolding closed
  probed s (refused n, w) = (some n, record s { world = w })
  probed s (instance_of m, w) = closed m (record s { world = w })

  -- probe
  unfoldable pub probe : Wazero W → Cell W → Text → ℕ → Option ℕ × Cell W
  unfolding probed
  probe z s name src =
      let (n, rt) = instance_config s.runtime name in
      probed (record s { runtime = rt }) (z.instantiate none s.world src n)
