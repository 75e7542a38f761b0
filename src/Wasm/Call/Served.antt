-- ===== src/Wasm/Call/Served.antt =====
-- A call of a guest that is built with the kit: the host gets what the handler computes.
use stc_go.Base.{
  ℕ, ◌+◌, ◌*◌, ◌/◌, ◌%◌, ◌<◌, ◌≡◌, refl, sym, ap, ◌∙◌, subst, Bool, false, Option, some, [], ◌∷◌,
  length, arith, if◌then◌else◌, ◌==◌,
}
use stc_go.Base.Sort.{add_key, delete_key, contains, contains-add_key, contains-delete_key}
use stc_go.Key.{Text}
use stc_go.Wasm.Host.{word}
use stc_go.Wasm.Instance.{Called, returned, Instance}
use stc_go.Guest.{
  Machine, Kit, stc_alloc, stc_free, invoke, invoke_name, kit_instance, alloc_export, free_export,
  invoke_export, with_machine,
}
use stc_go.Guest.Buffers.{
  IsLawful, computes, IsPacked, Given, invoke-IsPacked, invoke_nil, stc_alloc-write,
}
use stc_go.Wasm.Call
use stc_go.Wasm.Call.{
  Answer, alloc_name, free_name, free_call, copied, unpack, result_of, invoke_with, deferred,
  after_write, after_alloc, with_input, with_argument, with_export, call,
}

module _ {G : Type 0} (sys : Machine G) (lawful : IsLawful sys) (f : Text → Text) where
  guest : Instance (Kit G)
  guest = kit_instance sys (some (computes f))

  exports-free : guest.exported free_name ≡ some (free_export sys (some (computes f)))
  unfolding guest kit_instance
  exports-free = ground arith

  exports-alloc : guest.exported alloc_name ≡ some (alloc_export sys (some (computes f)))
  unfolding guest kit_instance
  exports-alloc = ground arith

  exports-invoke : guest.exported invoke_name ≡ some (invoke_export sys (some (computes f)))
  unfolding guest kit_instance
  exports-invoke = ground arith

  -- What the host makes of a result that the kit has packed.
  Gives : Text → Kit G → Answer × Kit G → Type 0
  Gives r k (a, k') =
      (a ≡ Call.ok r) × ((q : ℕ) → contains q k.call_bufs ≡ false → contains q k'.call_bufs ≡ false)

  freed :
      (ctx : Option ℕ) (k : Kit G) (p n : ℕ)
      → free_call (guest.exported free_name) ctx k p n ≡ stc_free sys k (p % word)
  unfolding free_call
  freed ctx k p n = ap (λ o. free_call o ctx k p n) exports-free

  unpacked :
      (ctx : Option ℕ) (k : Kit G) (ptr : ℕ) (r : Text)
      → ptr < word
      → length r < word
      → 0 < length r
      → guest.memory.read k ptr (length r) ≡ some r
      → unpack guest ctx k (ptr * word + length r) ≡ (Call.ok r, stc_free sys k ptr)
  unfolding unpack copied
  unpacked ctx k ptr r small few some_bytes e =
      let n = length r in
      let high : (ptr * word + n) / word % word ≡ ptr = omega arith in
      let low : (ptr * word + n) % word ≡ n = omega arith in
      let same : ptr % word ≡ ptr = omega arith in
      let nonzero : (n == 0) ≡ false = ground arith in
      let free = guest.exported free_name in
      let rest = λ (a b : ℕ). copied free ctx k a b (guest.memory.read k a b) in
      let body = λ (a b : ℕ). if b == 0 then (Call.ok [], k) else rest a b in
      ap (λ a. body a ((ptr * word + n) % word)) high
      ∙ ap (body ptr) low
      ∙ ap (λ (b : Bool). if b then (Call.ok [], k) else rest ptr n) nonzero
      ∙ ap (copied free ctx k ptr n) e
      ∙ ap (λ (w : Kit G). (Call.ok r, w)) (freed ctx k ptr n ∙ ap (stc_free sys k) same)

  empty_result :
      (ctx : Option ℕ) (k : Kit G) → result_of guest ctx (returned (0 ∷ []), k) ≡ (Call.ok [], k)
  unfolding result_of unpack
  empty_result ctx k = refl

  -- One packed result, taken out and released.
  packed-Gives :
      (ctx : Option ℕ) (k : Kit G) (c : ℕ) (cs : Text) (out : Called × Kit G)
      → length (c ∷ cs) < word
      → IsPacked sys k (c ∷ cs) out
      → Gives (c ∷ cs) k (result_of guest ctx out)
  unfolding result_of guest kit_instance Gives stc_free
  packed-Gives ctx k c cs out few p =
      let r = c ∷ cs in
      let k1 : Kit G = record { machine = p.machine; call_bufs = add_key p.ptr k.call_bufs } in
      subst (Gives r k)
        (sym (
          ap (result_of guest ctx) p.result
          ∙ unpacked ctx k1 p.ptr r p.small few (omega arith) p.stored))
        (
          refl,
          λ q h. ground (
            arith,
            contains-delete_key p.ptr q (add_key p.ptr k.call_bufs),
            contains-add_key p.ptr q k.call_bufs,
          ),
        )

  invoked-Gives :
      (ctx : Option ℕ) (k : Kit G) (ptr : ℕ) (arg r : Text)
      → Given sys lawful k ptr arg
      → f arg ≡ r
      → length r < word
      → Gives r k (result_of guest ctx (invoke sys (some (computes f)) k ptr (length arg)))
  unfolding Gives
  invoked-Gives ctx k ptr arg [] given e few =
      subst (Gives [] k)
        (sym (
          ap (result_of guest ctx) (invoke_nil sys lawful f k ptr arg given e)
          ∙ empty_result ctx k))
        (refl, λ q h. h)
  invoked-Gives ctx k ptr arg (c ∷ cs) given e few =
      packed-Gives ctx k c cs _ few (invoke-IsPacked sys lawful f k ptr arg c cs given e)

  served :
      (ctx : Option ℕ) (k : Kit G) (p : ℕ) (arg r : Text)
      → p < word
      → length arg < word
      → Given sys lawful k p arg
      → f arg ≡ r
      → length r < word
      → Gives r k (invoke_with guest ctx (invoke_export sys (some (computes f))) k p (length arg))
  unfolding invoke_with
  served ctx k p arg r small few given e short =
      let same_p : p ≡ p % word = omega arith in
      let same_n : length arg ≡ length arg % word = omega arith in
      subst
        (λ (n : ℕ). Gives r k (result_of guest ctx (invoke sys (some (computes f)) k (p % word) n)))
        same_n
        (subst
          (λ (x : ℕ).
            Gives r k (result_of guest ctx (invoke sys (some (computes f)) k x (length arg))))
          same_p (invoked-Gives ctx k p arg r given e short))

  -- The input is released last, and nothing else is.
  deferred-Gives :
      (ctx : Option ℕ) (k k1 : Kit G) (p n : ℕ) (r : Text) (out : Answer × Kit G)
      → p < word
      → k1.call_bufs ≡ add_key p k.call_bufs
      → Gives r k1 out
      → Gives r k (deferred guest ctx p n out)
  unfolding deferred Gives stc_free
  deferred-Gives ctx k k1 p n r (a, w) small e (answer, clean) = (
    answer,
    λ q h.
        let same : p % word ≡ p = omega arith in
        ap (λ (x : Kit G). contains q x.call_bufs) (freed ctx w p n)
        ∙ ap (λ x. contains q (delete_key x w.call_bufs)) same
        ∙ contains-delete_key p q w.call_bufs
        ∙ ground (arith, clean q, contains-add_key p q k.call_bufs),
  )

  after_write-Gives :
      (ctx : Option ℕ) (k k1 : Kit G) (p : ℕ) (arg : Text) (g : G)
      → p < word
      → length arg < word
      → length (f arg) < word
      → k1.call_bufs ≡ add_key p k.call_bufs
      → Given sys lawful (record k1 { machine = g }) p arg
      → Gives (f arg) k (
          after_write guest ctx
            (invoke_export sys (some (computes f)))
            k1
            p
            (length arg)
            (some (record k1 { machine = g })))
  unfolding after_write
  after_write-Gives ctx k k1 p arg g small few short e given =
      deferred-Gives ctx k (record k1 { machine = g }) p (length arg) (f arg) _ small e
        (served ctx (record k1 { machine = g }) p arg (f arg) small few given refl short)

  after_alloc-Gives :
      (ctx : Option ℕ) (k : Kit G) (c : ℕ) (cs : Text)
      → length (c ∷ cs) < word
      → length (f (c ∷ cs)) < word
      → Gives (f (c ∷ cs)) k (
          after_alloc guest ctx
            (invoke_export sys (some (computes f)))
            (c ∷ cs)
            ((alloc_export sys (some (computes f))).call ctx k (length (c ∷ cs) ∷ [])))
  unfolding after_alloc guest kit_instance
  after_alloc-Gives ctx k c cs few short =
      let arg = c ∷ cs in
      let n = length arg in
      let (g, small, wrote, stored, e) = stc_alloc-write sys lawful k arg in
      let (p, k1) = stc_alloc sys k n in
      let invoke_it = invoke_export sys (some (computes f)) in
      let same_n : n ≡ n % word = omega arith in
      let same_p : p ≡ p % word = omega (arith, small) in
      let write = λ (q : ℕ). guest.memory.write k1 q arg in
      let wrote' : write (p % word) ≡ some (record k1 { machine = g }) =
        ap write (sym same_p) ∙ ap (with_machine k1) wrote in
      subst
        (λ (m : ℕ). Gives (f arg) k (
          after_alloc guest ctx invoke_it arg
            (returned ((stc_alloc sys k m).0 ∷ []), (stc_alloc sys k m).1)))
        same_n
        (subst (λ o. Gives (f arg) k (after_write guest ctx invoke_it k1 p n o)) (sym wrote')
          (after_write-Gives ctx k k1 p arg g small few short e stored))

  call-Gives :
      (ctx : Option ℕ) (k : Kit G) (arg : Text)
      → length arg < word
      → length (f arg) < word
      → Gives (f arg) k (call (some (guest, ctx)) k invoke_name arg)
  unfolding call with_export with_argument with_input
  call-Gives ctx k [] few short =
      subst (λ o. Gives (f []) k (with_export guest ctx k [] o)) (sym exports-invoke)
        (served ctx k 0 [] (f []) few few tt refl short)
  call-Gives ctx k (c ∷ cs) few short =
      let invoke_it = invoke_export sys (some (computes f)) in
      subst (λ o. Gives (f (c ∷ cs)) k (with_export guest ctx k (c ∷ cs) o)) (sym exports-invoke)
        (subst (λ o. Gives (f (c ∷ cs)) k (with_input guest ctx invoke_it k (c ∷ cs) o))
          (sym exports-alloc) (after_alloc-Gives ctx k c cs few short))

  -- A call of `invoke` on a guest of the kit, whose allocator gives buffers that hold what is
  -- written to them, answers with what the guest's handler makes of the argument, where both are
  -- shorter than 2^32 bytes; and the kit keeps no buffer afterwards that it did not keep before.
  pub call-computes :
      (ctx : Option ℕ) (k : Kit G) (arg : Text) (q : ℕ)
      → length arg < word
      → length (f arg) < word
      → contains q k.call_bufs ≡ false
      → ((call (some (kit_instance sys (some (computes f)), ctx)) k invoke_name arg).0
          ≡ Call.ok (f arg))
        × (contains q
              (call
                (some (kit_instance sys (some (computes f)), ctx))
                k
                invoke_name
                arg).1.call_bufs
            ≡ false)
  unfolding Gives guest
  call-computes ctx k arg q few short absent =
      let (answer, clean) = call-Gives ctx k arg few short in (answer, clean q absent)
