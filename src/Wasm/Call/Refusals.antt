-- ===== src/Wasm/Call/Refusals.antt =====
-- When Handle.Call refuses before any function of the guest runs.
use stc_go.Base.{
  ℕ, ◌/◌, ◌%◌, ◌≡◌, refl, Bool, true, false, Bool-cases, inl, inr, Option, none, some, [], ◌∷◌,
  length, if_both, if◌then◌else◌, ◌==◌,
}
use stc_go.Key.{Text}
use stc_go.Wasm.Host.{word}
use stc_go.Wasm.Instance.{Called, returned, trapped, Function, Instance}
use stc_go.Wasm.Call.{
  CallError, no_active_module, no_export, bad_signature, no_alloc, Answer, err, alloc_name,
  free_name, signature_fits, copied, unpack, result_of, invoke_with, deferred, after_write,
  after_alloc, with_input, with_argument, with_export, call,
}

-- An answer that says that nothing of the guest was called.
abbrev pub is_refusal : Answer → Bool
is_refusal (err no_active_module) = true
is_refusal (err no_export) = true
is_refusal (err bad_signature) = true
is_refusal (err no_alloc) = true
is_refusal _ = false

module _ {W : Type 0} where
  abbrev no_buffer : Option (Function W) → Option CallError
  no_buffer none = some no_alloc
  no_buffer (some f) = none

  abbrev without_alloc : Instance W → Text → Option CallError
  without_alloc m [] = none
  without_alloc m (c ∷ cs) = no_buffer (m.exported alloc_name)

  abbrev unfit : Instance W → Text → Option (Function W) → Option CallError
  unfit m arg none = some no_export
  unfit m arg (some f) = if signature_fits f then without_alloc m arg else some bad_signature

  -- Why a call cannot begin, read off what the instance exports.
  abbrev pub refusal : Option (Instance W × Option ℕ) → Text → Text → Option CallError
  refusal none name arg = some no_active_module
  refusal (some (m, ctx)) name arg = unfit m arg (m.exported name)

  -- The call is refused for that reason and changes nothing, or is not refused.
  abbrev pub Refuses : W → Option CallError → Answer × W → Type 0
  Refuses w none (a, w') = is_refusal a ≡ false
  Refuses w (some e) (a, w') = (a ≡ err e) × (w' ≡ w)

  copied-begun :
      (free : Option (Function W)) (ctx : Option ℕ) (w : W) (ptr ln : ℕ) (o : Option Text)
      → is_refusal (copied free ctx w ptr ln o).0 ≡ false
  unfolding copied
  copied-begun free ctx w ptr ln none = refl
  copied-begun free ctx w ptr ln (some b) = refl

  unpack-begun :
      (m : Instance W) (ctx : Option ℕ) (w : W) (n : ℕ) → is_refusal (unpack m ctx w n).0 ≡ false
  unfolding unpack
  unpack-begun m ctx w n =
      let ptr = n / word % word in
      let ln = n % word in
      if_both {A = Answer × W} (λ x. is_refusal x.0 ≡ false) (ln == 0) refl
        (copied-begun (m.exported free_name) ctx w ptr ln (m.memory.read w ptr ln))

  result-begun :
      (m : Instance W) (ctx : Option ℕ) (x : Called × W) → is_refusal (result_of m ctx x).0 ≡ false
  unfolding result_of
  result-begun m ctx (trapped n, w) = refl
  result-begun m ctx (returned [], w) = refl
  result-begun m ctx (returned (p ∷ ps), w) = unpack-begun m ctx w p

  written-begun :
      (m : Instance W) (ctx : Option ℕ) (f : Function W) (w : W) (p ln : ℕ) (o : Option W)
      → is_refusal (after_write m ctx f w p ln o).0 ≡ false
  unfolding after_write deferred invoke_with
  written-begun m ctx f w p ln none = refl
  written-begun m ctx f w p ln (some w') = result-begun m ctx (f.call ctx w' (p ∷ ln ∷ []))

  alloc-begun :
      (m : Instance W) (ctx : Option ℕ) (f : Function W) (arg : Text) (x : Called × W)
      → is_refusal (after_alloc m ctx f arg x).0 ≡ false
  unfolding after_alloc
  alloc-begun m ctx f arg (trapped n, w) = refl
  alloc-begun m ctx f arg (returned [], w) = refl
  alloc-begun m ctx f arg (returned (p ∷ ps), w) = written-begun m ctx f w p (length arg) _

  input-Refuses :
      (m : Instance W) (ctx : Option ℕ) (f : Function W) (w : W) (arg : Text)
      (o : Option (Function W))
      → Refuses w (no_buffer o) (with_input m ctx f w arg o)
  unfolding with_input
  input-Refuses m ctx f w arg none = (refl, refl)
  input-Refuses m ctx f w arg (some alloc) =
      alloc-begun m ctx f arg (alloc.call ctx w (length arg ∷ []))

  argument-Refuses :
      (m : Instance W) (ctx : Option ℕ) (f : Function W) (w : W) (arg : Text)
      → Refuses w (without_alloc m arg) (with_argument m ctx f w arg)
  unfolding with_argument invoke_with
  argument-Refuses m ctx f w [] = result-begun m ctx (f.call ctx w (0 ∷ 0 ∷ []))
  argument-Refuses m ctx f w (c ∷ cs) = input-Refuses m ctx f w (c ∷ cs) (m.exported alloc_name)

  export-Refuses :
      (m : Instance W) (ctx : Option ℕ) (w : W) (arg : Text) (o : Option (Function W))
      → Refuses w (unfit m arg o) (with_export m ctx w arg o)
  unfolding with_export
  export-Refuses m ctx w arg none = (refl, refl)
  export-Refuses m ctx w arg (some f) = elim (Bool-cases (signature_fits f)) [
    | inl e ↦ rw e (argument-Refuses m ctx f w arg)
    | inr e ↦ rw e (refl, refl)
  ]

  -- Handle.Call answers that there is no active module, no such export, a wrong signature or no
  -- stc_alloc exactly where the reference, the exports and the argument say so, with the first of
  -- these reasons in this order and the world as it was; in every other case it answers something
  -- else.
  pub call-Refuses :
      (r : Option (Instance W × Option ℕ)) (w : W) (name arg : Text)
      → Refuses w (refusal r name arg) (call r w name arg)
  unfolding call
  call-Refuses none w name arg = (refl, refl)
  call-Refuses (some (m, ctx)) w name arg = export-Refuses m ctx w arg (m.exported name)
