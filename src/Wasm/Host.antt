-- ===== src/Wasm/Host.antt =====
-- wasm/wasm.go: the functions of the host module "stc". They act on the host's state and on the
-- memory of the guest that calls them; `ctx` is the context that the call carries.
pub mod Values
use stc_go.Base.{ℕ, ◌^◌, ◌-◌, ◌%◌, Option, none, some, [], ◌∷◌, ◌++◌, length, ltb, if◌then◌else◌}
use stc_go.Key.{Text, Key, Any, Typ, Reflect}
use stc_go.Key
use stc_go.Store.{Shared, ProvideEntry}
use stc_go.Services.{Result, ok, err, provide, resolve}
use stc_go.Wasm.Runtime.{Runtime, key}
use stc_go.Wasm.Instance.{Memory}

abbrev pub word : ℕ
word = 2 ^ 32

-- The bit pattern of the int32 value -1.
abbrev pub minus_one : ℕ
minus_one = 2 ^ 32 - 1

-- The host's state, with the memory of the calling guest.
pub record Host (M : Type 0) : Type 0 where
  pub shared : Shared
  pub runtime : Runtime
  pub memory : M

-- The assertion `v.(string)`.
as_text : Option Any → Option Text
as_text (some (Key.text t)) = some t
as_text _ = none

value_of : Option ProvideEntry → Option Any
value_of none = none
value_of (some e) = some e.value

-- Service[string], its two errors as one.
unfoldable pub service_text : Shared → ℕ → Key → Option Text
unfolding as_text value_of
service_text s c k = as_text (value_of (resolve s c k))

module _ {M : Type 0} (mem : Memory M) (string_typ : Typ) where
  -- readStr
  abbrev read_str : M → ℕ → ℕ → Option Text
  read_str m ptr ln = mem.read m ptr ln

  provided : {A : Type 0} → Host M → Result A × Shared → ℕ × Host M
  provided h (ok i, s) = (0, record h { shared = s })
  provided h (err e, s) = (1, record h { shared = s })

  provide_text : Reflect → Host M → ℕ → Text → Text → ℕ × Host M
  unfolding provided
  provide_text r h c k v =
      let (kk, rt) = key string_typ h.runtime k in
      provided (record h { runtime = rt }) (provide r h.shared c kk (Key.text v))

  provide_read : Reflect → Host M → Option ℕ → Option Text → Option Text → ℕ × Host M
  unfolding provide_text
  provide_read r h (some c) (some k) (some v) = provide_text r h c k v
  provide_read r h (some c) (some k) none = (1, h)
  provide_read r h (some c) none v = (1, h)
  provide_read r h none k v = (1, h)

  -- hostProvide
  unfoldable pub host_provide : Reflect → Host M → Option ℕ → ℕ → ℕ → ℕ → ℕ → ℕ × Host M
  unfolding provide_read
  host_provide r h ctx key_ptr key_len val_ptr val_len =
      provide_read r h ctx (read_str h.memory key_ptr key_len) (read_str h.memory val_ptr val_len)

  size_of : Option Text → ℕ
  size_of none = minus_one
  size_of (some v) = length v % word

  size_read : Host M → Option ℕ → Option Text → ℕ × Host M
  unfolding size_of
  size_read h (some c) (some k) =
      let (kk, rt) = key string_typ h.runtime k in
      (size_of (service_text h.shared c kk), record h { runtime = rt })
  size_read h (some c) none = (minus_one, h)
  size_read h none k = (minus_one, h)

  -- hostGetSize: an int32, as its bit pattern.
  unfoldable pub host_get_size : Host M → Option ℕ → ℕ → ℕ → ℕ × Host M
  unfolding size_read
  host_get_size h ctx key_ptr key_len = size_read h ctx (read_str h.memory key_ptr key_len)

  written : Host M → Text → Option M → ℕ × Host M
  written h v none = (minus_one, h)
  written h v (some m) = (length v % word, record h { memory = m })

  copy_out : Host M → ℕ → ℕ → Option Text → ℕ × Host M
  unfolding written
  copy_out h buf_ptr buf_len none = (minus_one, h)
  copy_out h buf_ptr buf_len (some v) =
      if ltb buf_len (length v) then (minus_one, h) else written h v (mem.write h.memory buf_ptr v)

  get_read : Host M → Option ℕ → ℕ → ℕ → Option Text → ℕ × Host M
  unfolding copy_out
  get_read h (some c) buf_ptr buf_len (some k) =
      let (kk, rt) = key string_typ h.runtime k in
      copy_out (record h { runtime = rt }) buf_ptr buf_len (service_text h.shared c kk)
  get_read h (some c) buf_ptr buf_len none = (minus_one, h)
  get_read h none buf_ptr buf_len k = (minus_one, h)

  -- hostGet: an int32, as its bit pattern.
  unfoldable pub host_get : Host M → Option ℕ → ℕ → ℕ → ℕ → ℕ → ℕ × Host M
  unfolding get_read
  host_get h ctx key_ptr key_len buf_ptr buf_len =
      get_read h ctx buf_ptr buf_len (read_str h.memory key_ptr key_len)

  logged : Host M → Option Text → Host M
  logged h none = h
  logged h (some m) = record h { runtime = record h.runtime { logs = h.runtime.logs ++ m ∷ [] } }

  -- hostLog
  unfoldable pub host_log : Host M → ℕ → ℕ → Host M
  unfolding logged
  host_log h msg_ptr msg_len = logged h (read_str h.memory msg_ptr msg_len)
