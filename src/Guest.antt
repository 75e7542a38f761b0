-- ===== src/Guest.antt =====
-- guest/guest.go: the kit that guests are built with, on the guest's side of the calls. The
-- allocator and the memory of the guest are parameters: pointers are numbers.
pub mod Buffers
use stc_go.Base.{
  ℕ, ◌+◌, ◌*◌, ◌%◌, ite, Bool, Option, none, some, List, [], ◌∷◌, length, ltb, if◌then◌else◌, ◌==◌,
}
use stc_go.Base.Sort.{add_key, delete_key}
use stc_go.Key.{Text, Text-discrete}
use stc_go.Wasm.Call.{alloc_name, free_name}
use stc_go.Wasm.Host.{word}
use stc_go.Wasm.Instance.{Called, returned, trapped, i32, i64, Function, Memory, Instance}

-- The guest's run-time system: `make` of bytes, with the pointer that `unsafe.SliceData` gives, and
-- the memory as the guest itself sees it.
pub record Machine (G : Type 0) : Type 0 where
  pub make : G → ℕ → ℕ × G
  pub memory : Memory G

-- `callBufs` is a set of pointers here: what keeps the buffers alive.
pub record Kit (G : Type 0) : Type 0 where
  pub machine : G
  pub call_bufs : List ℕ

-- The imported functions of the host.
pub record Imports (G : Type 0) : Type 0 where
  pub provide : G → ℕ → ℕ → ℕ → ℕ → ℕ × G
  pub get_size : G → ℕ → ℕ → ℕ × G
  pub get : G → ℕ → ℕ → ℕ → ℕ → ℕ × G
  pub log : G → ℕ → ℕ → G

-- A negative int32.
abbrev is_negative : ℕ → Bool
is_negative n = ltb 0x7fff_ffff n

-- What MustGet comes to: the value, or a panic that names the key.
pub data Must : Type 0 where
  value missing : Text → Must

module _ {G : Type 0} (sys : Machine G) where
  -- strarg, of a string that lies at the pointer.
  unfoldable pub strarg : ℕ → Text → ℕ × ℕ
  strarg ptr [] = (0, 0)
  strarg ptr (c ∷ cs) = (ptr % word, length (c ∷ cs) % word)

  -- Provide, of strings at two pointers; whether the host has accepted.
  unfoldable pub provide : Imports G → G → ℕ → Text → ℕ → Text → Bool × G
  provide host g key_at k value_at v =
      let (kp, kl) = strarg key_at k in
      let (vp, vl) = strarg value_at v in
      let (code, g') = host.provide g kp kl vp vl in (code == 0, g')

  read_back : G → ℕ → ℕ → Option Text × G
  read_back g buf w = if is_negative w then (none, g) else (sys.memory.read g buf w, g)

  fetch : Imports G → G → ℕ → ℕ → ℕ → Option Text × G
  unfolding read_back
  fetch host g kp kl n =
      let (buf, g') = sys.make g n in
      let (w, g'') = host.get g' kp kl (buf % word) (n % word) in read_back g'' buf w

  -- Get
  unfoldable pub get : Imports G → G → ℕ → Text → Option Text × G
  unfolding fetch
  get host g key_at k =
      let (kp, kl) = strarg key_at k in
      let (n, g') = host.get_size g kp kl in
      if is_negative n then (none, g') else fetch host g' kp kl n

  must_of : Text → Option Text × G → Must × G
  must_of k (some v, g) = (value v, g)
  must_of k (none, g) = (missing k, g)

  -- MustGet
  unfoldable pub must_get : Imports G → G → ℕ → Text → Must × G
  unfolding must_of
  must_get host g key_at k = must_of k (get host g key_at k)

  -- Log
  unfoldable pub log : Imports G → G → ℕ → Text → G
  log host g at m = let (p, l) = strarg at m in host.log g p l

  -- stcAlloc
  unfoldable pub stc_alloc : Kit G → ℕ → ℕ × Kit G
  stc_alloc k n =
      let (p, g) = sys.make k.machine n in
      (p % word, record { machine = g; call_bufs = add_key (p % word) k.call_bufs })

  -- stcFree
  unfoldable pub stc_free : Kit G → ℕ → Kit G
  stc_free k p = record k { call_bufs = delete_key p k.call_bufs }

  copied : Kit G → ℕ → ℕ → Option G → Called × Kit G
  copied k p n none = (trapped 0, k)
  copied k p n (some g) = (
    returned (((p % word) * word + n) ∷ []),
    record { machine = g; call_bufs = add_key (p % word) k.call_bufs },
  )

  -- The result goes into a buffer of its own, and comes back packed; an empty one as 0.
  pack : Text × Kit G → Called × Kit G
  unfolding copied
  pack ([], k) = (returned (0 ∷ []), k)
  pack (c ∷ cs, k) =
      let (p, g) = sys.make k.machine (length (c ∷ cs)) in
      copied (record k { machine = g }) p (length (c ∷ cs)) (sys.memory.write g p (c ∷ cs))

  handled : (Text → Kit G → Text × Kit G) → Kit G → Option Text → Called × Kit G
  unfolding pack
  handled handler k none = (trapped 0, k)
  handled handler k (some arg) = pack (handler arg k)

  invoked : Kit G → ℕ → ℕ → Option (Text → Kit G → Text × Kit G) → Called × Kit G
  unfolding handled pack
  invoked k ptr n none = (returned (0 ∷ []), k)
  invoked k ptr n (some handler) =
      if n == 0 then pack (handler [] k) else handled handler k (sys.memory.read k.machine ptr n)

  -- invoke, with the handler that OnInvoke has registered, if any.
  unfoldable pub invoke : Option (Text → Kit G → Text × Kit G) → Kit G → ℕ → ℕ → Called × Kit G
  unfolding invoked
  invoke handler k ptr n = invoked k ptr n handler

-- "invoke"
abbrev pub invoke_name : Text
invoke_name = 105 ∷ 110 ∷ 118 ∷ 111 ∷ 107 ∷ 101 ∷ []

abbrev pub with_machine : {G : Type 0} → Kit G → Option G → Option (Kit G)
with_machine k none = none
with_machine k (some g) = some (record k { machine = g })

module _ {G : Type 0} (sys : Machine G) (handler : Option (Text → Kit G → Text × Kit G)) where
  abbrev pub call_invoke : Option ℕ → Kit G → List ℕ → Called × Kit G
  call_invoke ctx k (p ∷ n ∷ []) = invoke sys handler k (p % word) (n % word)
  call_invoke ctx k _ = (trapped 0, k)

  abbrev returned_pointer : ℕ × Kit G → Called × Kit G
  returned_pointer (p, k) = (returned (p ∷ []), k)

  abbrev pub call_alloc : Option ℕ → Kit G → List ℕ → Called × Kit G
  call_alloc ctx k (n ∷ []) = returned_pointer (stc_alloc sys k (n % word))
  call_alloc ctx k _ = (trapped 0, k)

  abbrev pub call_free : Option ℕ → Kit G → List ℕ → Called × Kit G
  call_free ctx k (p ∷ n ∷ []) = (returned [], stc_free sys k (p % word))
  call_free ctx k _ = (trapped 0, k)

  abbrev pub invoke_export : Function (Kit G)
  invoke_export = record { params = i32 ∷ i32 ∷ []; results = i64 ∷ []; call = call_invoke }

  abbrev pub alloc_export : Function (Kit G)
  alloc_export = record { params = i32 ∷ []; results = i32 ∷ []; call = call_alloc }

  abbrev pub free_export : Function (Kit G)
  free_export = record { params = i32 ∷ i32 ∷ []; results = []; call = call_free }

  -- A guest that exports what the kit exports, and no more.
  unfoldable pub kit_instance : Instance (Kit G)
  unfolding Text-discrete
  kit_instance = record {
    exported = λ name. ite (Text-discrete invoke_name name) (some invoke_export) (
        ite (Text-discrete alloc_name name) (some alloc_export)
          (ite (Text-discrete free_name name) (some free_export) none));
    memory = record {
      read = λ k p n. sys.memory.read k.machine p n;
      write = λ k p bs. with_machine k (sys.memory.write k.machine p bs);
    };
    close = λ k. (none, k);
  }
