-- ===== src/Wasm/Instance.antt =====
-- What wasm/wasm.go uses of the runtime wazero (package api): instances with their exported functions
-- and their memory. `W` is the world that guests act on.
use stc_go.Base.{ℕ, Option, List}
use stc_go.Key.{Text}

pub data ValueType : Type 0 where
  i32 i64 f32 f64 : ValueType

-- What a call comes back with: the results, or a trap. Traps are told apart by numbers.
pub data Called : Type 0 where
  returned : List ℕ → Called
  trapped : ℕ → Called

-- An exported function. A call carries the context that `fiberCtxKey` holds, if any.
pub record Function (W : Type 0) : Type 0 where
  pub params : List ValueType
  pub results : List ValueType
  pub call : Option ℕ → W → List ℕ → Called × W

-- The memory: a read or a write that does not fit in it is refused.
pub record Memory (W : Type 0) : Type 0 where
  pub read : W → ℕ → ℕ → Option (List ℕ)
  pub write : W → ℕ → List ℕ → Option W

pub record Instance (W : Type 0) : Type 0 where
  pub exported : Text → Option (Function W)
  pub memory : Memory W
  pub close : W → Option ℕ × W

-- InstantiateWithConfig, of the bytes that a number names: the instance, or an error.
pub data Instantiated (W : Type 0) : Type 0 where
  instance_of : Instance W → Instantiated W
  refused : ℕ → Instantiated W

pub record Wazero (W : Type 0) : Type 0 where
  pub instantiate : Option ℕ → W → ℕ → Text → Instantiated W × W
