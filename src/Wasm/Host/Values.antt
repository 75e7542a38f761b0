-- ===== src/Wasm/Host/Values.antt =====
-- A value that a guest provides is the one that it gets back.
use stc_go.Base.{
  ℕ, ◌≤◌, ◌≡◌, refl, sym, ap, ◌∙◌, subst, Bool, false, Option, none, some, length, ltb,
  if◌then◌else◌, arith, ◌%◌,
}
use stc_go.Base.Assoc.{lookup, lookup-insert}
use stc_go.Key.{Text, Text-discrete, Key, Typ, Reflect}
use stc_go.Key
use stc_go.Store.{Shared, Inverse}
use stc_go.Services.{Result, ok, err, provide}
use stc_go.Services.Visible.{resolve-provide}
use stc_go.Wasm.Runtime.{Runtime, key, key_in}
use stc_go.Wasm.Instance.{Memory}
use stc_go.Wasm.Host.{
  word, minus_one, Host, as_text, value_of, service_text, provided, provide_text, provide_read,
  host_provide, written, copy_out, get_read, host_get,
}

-- The table keeps the key of a name.
key_in-key :
    (t : Typ) (r : Runtime) (name : Text) (o : Option Key)
    → lookup Text-discrete name r.keys ≡ o
    → lookup Text-discrete name (key_in t r name o).1.keys ≡ some (key_in t r name o).0
unfolding key_in
key_in-key t r name none e =
    ground (arith, lookup-insert Text-discrete name name (Key.new_key t name) r.keys)
key_in-key t r name (some k) e = e

key-key : (t : Typ) (r : Runtime) (name : Text) → key t (key t r name).1 name ≡ key t r name
unfolding key
key-key t r name =
    unfold key_in in
    ap (key_in t (key t r name).1 name)
      (key_in-key t r name (lookup Text-discrete name r.keys) refl)

module _ {M : Type 0} (mem : Memory M) (string_typ : Typ) where
  -- Where the host has answered 0, Provide has succeeded.
  accepted :
      (h h' : Host M) (x : Result Inverse × Shared)
      → provided mem string_typ h x ≡ (0, h')
      → (i : Inverse) × (s : Shared) × (x ≡ (ok i, s)) × (record h { shared = s } ≡ h')
  unfolding provided
  accepted h h' (ok i, s) e = (i, s, refl, ap (λ y. y.1) e)
  accepted h h' (err x, s) e = absurd (ground (arith, e))

  got :
      (h : Host M) (buf_ptr buf_len : ℕ) (v : Text) (m : M)
      → length v ≤ buf_len
      → mem.write h.memory buf_ptr v ≡ some m
      → copy_out mem string_typ h buf_ptr buf_len (some v)
        ≡ (length v % word, record h { memory = m })
  unfolding copy_out written
  got h buf_ptr buf_len v m few e =
      let fits : ltb buf_len (length v) ≡ false = ground arith in
      ap
        (λ (b : Bool).
          if b then (minus_one, h) else written mem string_typ h v (mem.write h.memory buf_ptr v))
        fits
      ∙ ap (written mem string_typ h v) e

  -- Where the host function `provide` has answered 0 to a guest, `get` on the same context and
  -- key, into a buffer that is long enough and that the memory can take, answers with the length
  -- of the value that was provided and writes the value into the buffer.
  pub host_get-host_provide :
      (r : Reflect) (h h' : Host M) (c key_ptr key_len val_ptr val_len buf_ptr buf_len : ℕ)
      (k v : Text) (m : M)
      → mem.read h.memory key_ptr key_len ≡ some k
      → mem.read h.memory val_ptr val_len ≡ some v
      → host_provide mem string_typ r h (some c) key_ptr key_len val_ptr val_len ≡ (0, h')
      → length v ≤ buf_len
      → mem.write h.memory buf_ptr v ≡ some m
      → host_get mem string_typ h' (some c) key_ptr key_len buf_ptr buf_len
        ≡ (length v % word, record h' { memory = m })
  unfolding host_provide provide_read provide_text host_get get_read service_text as_text value_of
  host_get-host_provide r h h' c key_ptr key_len val_ptr val_len buf_ptr buf_len k v m rk rv e few
        wrote =
      let (kk, rt) = key string_typ h.runtime k in
      let h1 = record h { runtime = rt } in
      let x = provide r h.shared c kk (Key.text v) in
      let now : provided mem string_typ h1 x ≡ (0, h') =
        sym (
          ap (λ o. provide_read mem string_typ r h (some c) o (mem.read h.memory val_ptr val_len))
            rk
          ∙ ap (λ o. provide_read mem string_typ r h (some c) (some k) o) rv)
        ∙ e in
      let (i, s, done, same) = accepted h1 h' x now in
      let h2 = record h1 { shared = s } in
      let value : service_text s c kk ≡ some v =
        ap (λ o. as_text (value_of o)) (resolve-provide r h.shared s c kk (Key.text v) i done) in
      subst
        (λ (y : Host M).
          host_get mem string_typ y (some c) key_ptr key_len buf_ptr buf_len
          ≡ (length v % word, record y { memory = m }))
        same
        (ap (get_read mem string_typ h2 (some c) buf_ptr buf_len) rk
          ∙ ap
              (λ (p : Key × Runtime).
                copy_out mem string_typ (record h2 { runtime = p.1 }) buf_ptr buf_len
                  (service_text s c p.0))
              (key-key string_typ h.runtime k)
          ∙ ap (copy_out mem string_typ h2 buf_ptr buf_len) value
          ∙ got h2 buf_ptr buf_len v m few wrote)
