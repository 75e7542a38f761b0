-- ===== src/Wasm/Runtime.antt =====
-- wasm/wasm.go: the host's own state (the table of keys, the numbers of the instances, the log),
-- and the names that instances get.
pub mod Names
use stc_go.Base.{
  ℕ, zero, suc, ◌+◌, ◌/◌, ◌%◌, Option, none, some, List, [], ◌∷◌, ◌++◌, if◌then◌else◌, ltb,
}
use stc_go.Base.Assoc.{Assoc, lookup, insert}
use stc_go.Key.{Text, Text-discrete, Key, Typ, new_key}
use stc_go.Store.{Component}

pub record Runtime : Type 0 where
  pub seq : ℕ
  pub keys : Assoc Text Key
  pub logs : List Text

-- Options: `inject` and `provide` are names of services.
pub record Options : Type 0 where
  pub name : Text
  pub inject : List Text
  pub provide : List Text

unfoldable pub start : Runtime
start = record { seq = 0; keys = []; logs = [] }

-- The decimal digits of a number, as `%d` prints them.
unfoldable pub digits_with : ℕ → ℕ → Text
digits_with zero n = []
digits_with (suc fuel) n =
    let higher = digits_with fuel (n / 10) in
    if ltb n 10 then (48 + n) ∷ [] else higher ++ (48 + n % 10) ∷ []

unfoldable pub digits : ℕ → Text
unfolding digits_with
digits n = digits_with (suc n) n

-- `%s-%d`
unfoldable pub instance_name : Text → ℕ → Text
unfolding digits
instance_name name n = name ++ 45 ∷ digits n

-- instanceConfig: the name of the instance, and the runtime.
unfoldable pub instance_config : Runtime → Text → Text × Runtime
instance_config r name = (instance_name name (r.seq + 1), record r { seq = r.seq + 1 })

module _ (string_typ : Typ) where
  unfoldable pub key_in : Runtime → Text → Option Key → Key × Runtime
  key_in r name (some k) = (k, r)
  key_in r name none =
      let k = new_key string_typ name in (k, record r { keys = insert Text-discrete name k r.keys })

  -- Key
  unfoldable pub key : Runtime → Text → Key × Runtime
  unfolding key_in
  key r name = key_in r name (lookup Text-discrete name r.keys)

  unfoldable pub keys_for : Runtime → List Text → List Key × Runtime
  keys_for r [] = ([], r)
  keys_for r (n ∷ ns) = let (k, r') = key r n in let (ks, r'') = keys_for r' ns in (k ∷ ks, r'')

  -- The static part of `component`; `src` names the bytes of the module, whose Apply is the one
  -- of `Lifecycle`.
  unfoldable pub component : Runtime → ℕ → Options → Component × Runtime
  component r src opts =
      let (injected, r') = keys_for r opts.inject in
      let (provided, r'') = keys_for r' opts.provide in
      (record { name = opts.name; inject = injected; provide = provided; apply = some src }, r'')

-- Logs: the messages so far.
unfoldable pub logs_of : Runtime → List Text
logs_of r = r.logs

-- What NewRuntime returns.
pub data Made : Type 0 where
  made : Runtime → Made
  host_module : ℕ → Made

-- NewRuntime, where wazero refuses the host module or not; WASI is set up in any case, or panics.
unfoldable pub new_runtime : Option ℕ → Made
unfolding start
new_runtime none = made start
new_runtime (some e) = host_module e
