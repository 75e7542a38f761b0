-- ===== src/Hooks/Delivery.antt =====
-- A listener is called from its registration to its withdrawal.
use stc_go.Base.{ℕ, ◌+◌, ◌≡◌, refl, ap, ◌∙◌, List, [], ◌∷◌, ◌++◌, map, arith, ite, false}
use stc_go.Key.{Text, Text-discrete, Any}
use stc_go.Store.{Shared, ListenerEntry, Deed, called, listeners_of, is_inactive}
use stc_go.Store.Maps.{listeners-insert}
use stc_go.Hooks.{on, emit}

-- The calls that an event of the name makes.
abbrev pub calls : Shared → Text → List Any → List Deed
calls s name args = map (λ l. called l.fn args) (listeners_of s.listeners name)

map-append {ℓ κ} :
    {A : Type ℓ} {B : Type κ} (f : A → B) (xs : List A) (y : A)
    → map f (xs ++ y ∷ []) ≡ map f xs ++ f y ∷ []
map-append f [] y = refl
map-append f (x ∷ xs) y = ap (◌∷◌ (f x)) (map-append f xs y)

pub listeners-on :
    (s : Shared) (c : ℕ) (name q : Text) (fn : ℕ)
    → is_inactive s c ≡ false
    → listeners_of (on s c name fn).1.listeners q
      ≡ ite
          (Text-discrete name q)
          (listeners_of s.listeners name ++ record { id = s.seq + 1; owner = c; fn = fn } ∷ [])
          (listeners_of s.listeners q)
unfolding on
listeners-on s c name q fn h = ground (
  arith,
  listeners-insert name q
      (listeners_of s.listeners name ++ record { id = s.seq + 1; owner = c; fn = fn } ∷ [])
      s.listeners,
)

deeds-on : (s : Shared) (c : ℕ) (name : Text) (fn : ℕ) → (on s c name fn).1.deeds ≡ s.deeds
unfolding on
deeds-on s c name fn = ground arith

calls-on :
    (s : Shared) (c : ℕ) (name q : Text) (fn : ℕ) (args : List Any)
    → is_inactive s c ≡ false
    → calls (on s c name fn).1 q args
      ≡ ite (Text-discrete name q) (calls s q args ++ called fn args ∷ []) (calls s q args)
calls-on s c name q fn args h =
    let f = λ (l : ListenerEntry). called l.fn args in
    let e : ListenerEntry = record { id = s.seq + 1; owner = c; fn = fn } in
    let old = listeners_of s.listeners in
    ap (map f) (listeners-on s c name q fn h)
    ∙ (elim (Text-discrete name q)
        as (λ d.
          map f (ite d (old name ++ e ∷ []) (old q))
          ≡ ite d (map f (old q) ++ called fn args ∷ []) (map f (old q))) [
            | yes p ↦ map-append f (old name) e ∙ ap (λ n. map f (old n) ++ called fn args ∷ []) p
            | no p ↦ refl
          ])

-- On a live scope, a listener joins the calls of its event, after those before it, and no other
-- event's.
pub emit-on :
    (s : Shared) (c : ℕ) (name q : Text) (fn : ℕ) (args : List Any)
    → is_inactive s c ≡ false
    → (emit (on s c name fn).1 q args).deeds
      ≡ s.deeds
        ++ ite (Text-discrete name q) (calls s q args ++ called fn args ∷ []) (calls s q args)
unfolding emit
emit-on s c name q fn args h =
    ap (λ (l : List Deed). l ++ calls (on s c name fn).1 q args) (deeds-on s c name fn)
    ∙ ap (◌++◌ s.deeds) (calls-on s c name q fn args h)
