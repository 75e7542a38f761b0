-- ===== src/Wasm/Call.antt =====
-- wasm/wasm.go: Handle.Call, a call of a guest's function with a string for a string.
pub mod Served
pub mod Refusals
use stc_go.Base.{
  ℕ, ◌/◌, ◌%◌, Bool, true, false, ◌&&◌, Option, none, some, List, [], ◌∷◌, length, if◌then◌else◌,
  ◌==◌,
}
use stc_go.Key.{Text}
use stc_go.Wasm.Host.{word}
use stc_go.Wasm.Instance.{ValueType, i32, i64, Called, returned, trapped, Function, Instance}
use stc_go.Wasm.Instance

pub data CallError : Type 0 where
  no_active_module no_export bad_signature no_alloc : CallError
  alloc_trapped input_too_large call_trapped result_out_of_bounds : CallError

-- What the caller gets; the source panics where a function that the guest exports as `stc_alloc`
-- returns nothing.
pub data Answer : Type 0 where
  ok : Text → Answer
  err : CallError → Answer
  panic : Answer

-- "stc_alloc" and "stc_free"
abbrev pub alloc_name : Text
alloc_name = 115 ∷ 116 ∷ 99 ∷ 95 ∷ 97 ∷ 108 ∷ 108 ∷ 111 ∷ 99 ∷ []

abbrev pub free_name : Text
free_name = 115 ∷ 116 ∷ 99 ∷ 95 ∷ 102 ∷ 114 ∷ 101 ∷ 101 ∷ []

abbrev is_i32 : ValueType → Bool
is_i32 i32 = true
is_i32 _ = false

-- The check of the signature: (i32, i32) -> i64.
abbrev params_fit : List ValueType → Bool
params_fit (a ∷ b ∷ []) = is_i32 a && is_i32 b
params_fit _ = false

abbrev results_fit : List ValueType → Bool
results_fit (i64 ∷ []) = true
results_fit _ = false

module _ {W : Type 0} where
  abbrev pub signature_fits : Function W → Bool
  signature_fits f = params_fit f.params && results_fit f.results

  -- A call whose result and error are dropped; nothing where the guest exports no such function.
  unfoldable pub free_call : Option (Function W) → Option ℕ → W → ℕ → ℕ → W
  free_call none ctx w ptr ln = w
  free_call (some f) ctx w ptr ln = (f.call ctx w (ptr ∷ ln ∷ [])).1

  copied : Option (Function W) → Option ℕ → W → ℕ → ℕ → Option Text → Answer × W
  unfolding free_call
  copied free ctx w ptr ln none = (err result_out_of_bounds, w)
  copied free ctx w ptr ln (some b) = (ok b, free_call free ctx w ptr ln)

  -- The result is packed: the pointer in the upper half, the length in the lower.
  unpack : Instance W → Option ℕ → W → ℕ → Answer × W
  unfolding copied
  unpack m ctx w packed =
      let ptr = packed / word % word in
      let ln = packed % word in
      if ln == 0
      then (ok [], w)
      else copied (m.exported free_name) ctx w ptr ln (m.memory.read w ptr ln)

  result_of : Instance W → Option ℕ → Called × W → Answer × W
  unfolding unpack
  result_of m ctx (trapped n, w) = (err call_trapped, w)
  result_of m ctx (returned [], w) = (panic, w)
  result_of m ctx (returned (packed ∷ rest), w) = unpack m ctx w packed

  -- The call itself, and what becomes of its result.
  invoke_with : Instance W → Option ℕ → Function W → W → ℕ → ℕ → Answer × W
  unfolding result_of
  invoke_with m ctx f w in_ptr ln = result_of m ctx (f.call ctx w (in_ptr ∷ ln ∷ []))

  -- The deferred release of the input comes last, whatever the call has answered.
  deferred : Instance W → Option ℕ → ℕ → ℕ → Answer × W → Answer × W
  unfolding free_call
  deferred m ctx in_ptr ln (a, w) = (a, free_call (m.exported free_name) ctx w in_ptr ln)

  after_write : Instance W → Option ℕ → Function W → W → ℕ → ℕ → Option W → Answer × W
  unfolding deferred invoke_with
  after_write m ctx f w in_ptr ln none = (err input_too_large, w)
  after_write m ctx f w in_ptr ln (some w') =
      deferred m ctx in_ptr ln (invoke_with m ctx f w' in_ptr ln)

  after_alloc : Instance W → Option ℕ → Function W → Text → Called × W → Answer × W
  unfolding after_write
  after_alloc m ctx f arg (trapped n, w) = (err alloc_trapped, w)
  after_alloc m ctx f arg (returned [], w) = (panic, w)
  after_alloc m ctx f arg (returned (in_ptr ∷ rest), w) =
      after_write m ctx f w in_ptr (length arg) (m.memory.write w (in_ptr % word) arg)

  with_input : Instance W → Option ℕ → Function W → W → Text → Option (Function W) → Answer × W
  unfolding after_alloc
  with_input m ctx f w arg none = (err no_alloc, w)
  with_input m ctx f w arg (some alloc) =
      after_alloc m ctx f arg (alloc.call ctx w (length arg ∷ []))

  with_argument : Instance W → Option ℕ → Function W → W → Text → Answer × W
  unfolding invoke_with with_input
  with_argument m ctx f w [] = invoke_with m ctx f w 0 0
  with_argument m ctx f w (c ∷ cs) = with_input m ctx f w (c ∷ cs) (m.exported alloc_name)

  with_export : Instance W → Option ℕ → W → Text → Option (Function W) → Answer × W
  unfolding with_argument
  with_export m ctx w arg none = (err no_export, w)
  with_export m ctx w arg (some f) =
      if signature_fits f then with_argument m ctx f w arg else (err bad_signature, w)

  -- Call: the reference holds the active instance with its fiber's context.
  unfoldable pub call : Option (Instance W × Option ℕ) → W → Text → Text → Answer × W
  unfolding with_export
  call none w name arg = (err no_active_module, w)
  call (some (m, ctx)) w name arg = with_export m ctx w arg (m.exported name)
