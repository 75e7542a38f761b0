-- ===== src/Wasm/Runtime/Names.antt =====
-- wasm/wasm.go: the names of instances, and reading back the number in them.
use stc_go.Base.{
  ℕ, zero, suc, ◌+◌, ◌-◌, ◌*◌, ◌/◌, ◌%◌, ◌≤◌, ◌<◌, ◌≡◌, ◌≢◌, refl, sym, ap, ◌∙◌, Bool, Bool-cases,
  inl, inr, [], ◌∷◌, ◌++◌, arith, ltb, if◌then◌else◌, ◌==◌,
}
use stc_go.Key.{Text}
use stc_go.Wasm.Runtime.{Runtime, digits_with, digits, instance_name, instance_config}

-- The number behind the last dash, where `n` was read so far.
abbrev read_on : ℕ → ℕ → ℕ
read_on n c = if c == 45 then 0 else n * 10 + (c - 48)

abbrev number_from : ℕ → Text → ℕ
number_from n [] = n
number_from n (c ∷ cs) = number_from (read_on n c) cs

number_from-append :
    (n : ℕ) (xs ys : Text) → number_from n (xs ++ ys) ≡ number_from (number_from n xs) ys
number_from-append n [] ys = refl
number_from-append n (x ∷ xs) ys = number_from-append (read_on n x) xs ys

read_on-digit : (m d : ℕ) → read_on m (48 + d) ≡ m * 10 + d
read_on-digit m d = ground arith

read_on-first : (n : ℕ) → read_on 0 (48 + n) ≡ n
read_on-first n = ground arith

-- Enough fuel prints a number in full.
number_from-digits_with : (fuel n : ℕ) → n < fuel → number_from 0 (digits_with fuel n) ≡ n
unfolding digits_with
number_from-digits_with zero n h = absurd (omega (arith, h))
number_from-digits_with (suc fuel) n h =
    let higher : Text = digits_with fuel (n / 10) in
    let read : Bool → ℕ =
      λ b. number_from 0 (if b then (48 + n) ∷ [] else higher ++ (48 + n % 10) ∷ []) in
    elim (Bool-cases (ltb n 10)) [
      | inl e ↦ ap read e ∙ read_on-first n
      | inr e ↦
          ap read e
          ∙ number_from-append 0 higher ((48 + n % 10) ∷ [])
          ∙ read_on-digit (number_from 0 higher) (n % 10)
          ∙ ap (λ m. m * 10 + n % 10) (number_from-digits_with fuel (n / 10) (ground (arith, e, h)))
          ∙ omega arith
    ]

number_from-instance_name : (name : Text) (n : ℕ) → number_from 0 (instance_name name n) ≡ n
unfolding instance_name digits
number_from-instance_name name n =
    number_from-append 0 name (45 ∷ digits n) ∙ number_from-digits_with (suc n) n (omega arith)

instance_config-seq :
    (r r' : Runtime) (name name' : Text)
    → (instance_config r name).0 ≡ (instance_config r' name').0
    → r.seq + 1 ≡ r'.seq + 1
unfolding instance_config
instance_config-seq r r' name name' e =
    sym (number_from-instance_name name (r.seq + 1))
    ∙ ap (number_from 0) e
    ∙ number_from-instance_name name' (r'.seq + 1)

-- Where the counter of the runtime is at least what a call of instanceConfig left it at,
-- instanceConfig does not return the name that this call returned, whatever names the two
-- components have, dashes and digits in them included.
pub instance_config-later :
    (r r' : Runtime) (name name' : Text)
    → (instance_config r name).1.seq ≤ r'.seq
    → (instance_config r name).0 ≢ (instance_config r' name').0
unfolding instance_config
instance_config-later r r' name name' h e =
    let same = instance_config-seq r r' name name' e in omega (arith, h, same)
