-- ===== src/Guest/Buffers.antt =====
-- The buffers of the kit: what invoke leaves in them, for a handler that computes a function.
use stc_go.Base.{
  ℕ, ◌+◌, ◌*◌, ◌%◌, ◌<◌, ◌≡◌, refl, sym, ap, ◌∙◌, subst, false, some, List, [], ◌∷◌, length, arith,
  if◌then◌else◌, ◌==◌,
}
use stc_go.Base.Sort.{add_key}
use stc_go.Key.{Text}
use stc_go.Wasm.Host.{word}
use stc_go.Wasm.Instance.{Called, returned}
use stc_go.Guest.{Machine, Kit, stc_alloc, pack, copied, handled, invoked, invoke}

-- What the kit relies on: a fresh buffer has a 32-bit pointer, takes as many bytes as it was made
-- for, and gives them back.
pub record IsLawful {G : Type 0} (sys : Machine G) : Type 0 where
  pub small : (g : G) (n : ℕ) → (sys.make g n).0 < word
  pub holds :
      (g : G) (bs : List ℕ)
      → (g' : G) × (sys.memory.write (sys.make g (length bs)).1 (sys.make g (length bs)).0 bs
          ≡ some g')
        × (sys.memory.read g' (sys.make g (length bs)).0 (length bs) ≡ some bs)

-- The handler computes a function and touches nothing.
abbrev pub computes : {G : Type 0} → (Text → Text) → Text → Kit G → Text × Kit G
computes f arg k = (f arg, k)

-- A result that is not empty, packed into a buffer of its own.
pub record IsPacked {G : Type 0} (sys : Machine G) (k : Kit G) (r : Text) (out : Called × Kit G)
    : Type 0 where
  pub ptr : ℕ
  pub machine : G
  pub result : out ≡ (
    returned ((ptr * word + length r) ∷ []),
    record { machine = machine; call_bufs = add_key ptr k.call_bufs },
  )
  pub small : ptr < word
  pub stored : sys.memory.read machine ptr (length r) ≡ some r

module _ {G : Type 0} (sys : Machine G) (lawful : IsLawful sys) where
  pack-IsPacked : (k : Kit G) (c : ℕ) (cs : Text) → IsPacked sys k (c ∷ cs) (pack sys (c ∷ cs, k))
  unfolding pack copied
  pack-IsPacked k c cs =
      let (g', wrote, stored) = lawful.holds k.machine (c ∷ cs) in
      let (p, g) = sys.make k.machine (length (c ∷ cs)) in
      let low : p % word ≡ p = omega (arith, lawful.small k.machine (length (c ∷ cs))) in
      record {
        ptr = p;
        machine = g';
        result =
            ap (λ o. copied sys (record k { machine = g }) p (length (c ∷ cs)) o) wrote
            ∙ ap
                (λ (q : ℕ). (
                  returned ((q * word + length (c ∷ cs)) ∷ []),
                  record { machine = g'; call_bufs = add_key q k.call_bufs },
                ))
                low;
        small = lawful.small k.machine (length (c ∷ cs));
        stored = stored;
      }

  -- The argument lies at the pointer, or it is empty.
  abbrev pub Given : Kit G → ℕ → Text → Type 0
  Given k ptr [] = Unit {0}
  Given k ptr (c ∷ cs) = sys.memory.read k.machine ptr (length (c ∷ cs)) ≡ some (c ∷ cs)

  invoke-pack :
      (f : Text → Text) (k : Kit G) (ptr : ℕ) (arg : Text)
      → Given k ptr arg
      → invoke sys (some (computes f)) k ptr (length arg) ≡ pack sys (f arg, k)
  unfolding invoke invoked handled
  invoke-pack f k ptr [] e = refl
  invoke-pack f k ptr (c ∷ cs) e =
      let n = length (c ∷ cs) in
      let some_bytes : (n == 0) ≡ false = ground arith in
      ap
        (λ b.
          if b
          then pack sys (f [], k)
          else handled sys (computes f) k (sys.memory.read k.machine ptr n))
        some_bytes
      ∙ ap (handled sys (computes f) k) e

  -- invoke reads its argument at the pointer, and packs what the handler makes of it.
  pub invoke-IsPacked :
      (f : Text → Text) (k : Kit G) (ptr : ℕ) (arg : Text) (c : ℕ) (cs : Text)
      → Given k ptr arg
      → f arg ≡ c ∷ cs
      → IsPacked sys k (c ∷ cs) (invoke sys (some (computes f)) k ptr (length arg))
  invoke-IsPacked f k ptr arg c cs e r =
      subst (IsPacked sys k (c ∷ cs))
        (sym (invoke-pack f k ptr arg e ∙ ap (λ (x : Text). pack sys (x, k)) r))
        (pack-IsPacked k c cs)

  pub invoke_nil :
      (f : Text → Text) (k : Kit G) (ptr : ℕ) (arg : Text)
      → Given k ptr arg
      → f arg ≡ []
      → invoke sys (some (computes f)) k ptr (length arg) ≡ (returned (0 ∷ []), k)
  unfolding pack
  invoke_nil f k ptr arg e r = invoke-pack f k ptr arg e ∙ ap (λ (x : Text). pack sys (x, k)) r

  -- stc_alloc gives room for as many bytes as it was asked for.
  pub stc_alloc-write :
      (k : Kit G) (bs : List ℕ)
      → (g : G) × ((stc_alloc sys k (length bs)).0 < word)
        × (sys.memory.write
              (stc_alloc sys k (length bs)).1.machine
              (stc_alloc sys k (length bs)).0
              bs
            ≡ some g)
        × (sys.memory.read g (stc_alloc sys k (length bs)).0 (length bs) ≡ some bs)
        × ((stc_alloc sys k (length bs)).1.call_bufs
            ≡ add_key (stc_alloc sys k (length bs)).0 k.call_bufs)
  unfolding stc_alloc
  stc_alloc-write k bs =
      let (g, wrote, stored) = lawful.holds k.machine bs in
      let (p, m) = sys.make k.machine (length bs) in
      let low : p ≡ p % word = omega (arith, lawful.small k.machine (length bs)) in
      (
        g,
        omega arith,
        subst (λ q. sys.memory.write m q bs ≡ some g) low wrote,
        subst (λ q. sys.memory.read g q (length bs) ≡ some bs) low stored,
        refl,
      )
