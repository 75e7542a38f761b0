-- ===== src/Orchestrator/Cycle.antt =====
-- What fiber.go promises of a fiber's life: an abstract machine over the state and the two flags,
-- and that `settle` and the commands make only its turns.
use stc_go.Base.{ℕ, ◌≡◌, refl, sym, subst, ap, Bool, true, false, arith}
use stc_go.Store.{Shared}
use stc_go.Store
use stc_go.Orchestrator.Frames.{Life, life}
use stc_go.Orchestrator.Tokens.{is_resting, is_ending, is_terminal}

-- One turn of a fiber's life.
pub data Turn (l : Life) : Life → Type 0 where
  -- A load begins.
  starts :
      l.state ≡ Store.pending → l.disposing ≡ false → Turn l (record l { state = Store.loading })
  -- Apply has returned, and nothing stands against the fiber.
  completes :
      l.state ≡ Store.loading → l.disposing ≡ false → Turn l (record l { state = Store.active })
  -- Apply has failed.
  fails : l.state ≡ Store.loading → Turn l (record l { state = Store.unloading; failing = true })
  overtaken : l.state ≡ Store.loading → Turn l (record l { state = Store.unloading })
  leaves :
      l.state ≡ Store.active
      → (d : Bool) → Turn l (record l { state = Store.unloading; disposing = d })
  -- The unwinding has ended, and the fiber waits or loads again.
  rests :
      l.state ≡ Store.unloading
      → l.disposing ≡ false
      → l.failing ≡ false
      → Turn l (record l { state = Store.pending })
  restarts :
      l.state ≡ Store.unloading
      → l.disposing ≡ false
      → l.failing ≡ false
      → Turn l (record l { state = Store.loading })
  breaks : l.state ≡ Store.unloading → l.failing ≡ true → Turn l (record l { state = Store.failed })
  ends : l.state ≡ Store.unloading → l.failing ≡ false → Turn l (record l { state = Store.gone })
  dropped :
      l.state ≡ Store.pending → (d : Bool) → Turn l (record l { state = Store.gone; disposing = d })
  -- A disposal is asked for while a goroutine is at work.
  asked :
      is_resting l.state ≡ false
      → is_terminal l.state ≡ false
      → Turn l (record l { disposing = true })

pub data Trail (l : Life) : Life → Type 0 where
  stay : Trail l l
  turn : {m n : Life} → Trail l m → Turn m n → Trail l n

pub Trail-trans : {l m n : Life} → Trail l m → Trail m n → Trail l n
Trail-trans p stay = p
Trail-trans p (turn q t) = turn (Trail-trans p q) t

-- A fiber at rest is not to be disposed of, and one that has failed is on its way out.
pub record Sane (l : Life) : Type 0 where
  pub disposing : l.disposing ≡ true → is_resting l.state ≡ false
  pub failing : l.failing ≡ true → is_ending l.state ≡ true

Turn-Sane : {l m : Life} → Turn l m → Sane l → Sane m
Turn-Sane (starts e d) v = ground arith
Turn-Sane (completes e d) v = ground arith
Turn-Sane (fails e) v = ground arith
Turn-Sane (overtaken e) v = ground arith
Turn-Sane (leaves e d) v = ground arith
Turn-Sane (rests e d f) v = ground arith
Turn-Sane (restarts e d f) v = ground arith
Turn-Sane (breaks e f) v = ground arith
Turn-Sane (ends e f) v = ground arith
Turn-Sane (dropped e d) v = ground arith
Turn-Sane (asked e d) v = ground arith

pub Trail-Sane : {l m : Life} → Trail l m → Sane l → Sane m
Trail-Sane stay v = v
Trail-Sane (turn p t) v = Turn-Sane t (Trail-Sane p v)

-- No turn leaves the failed state or the state gone.
Turn-living : {l m : Life} → Turn l m → is_terminal l.state ≡ false
Turn-living (starts e d) = ground arith
Turn-living (completes e d) = ground arith
Turn-living (fails e) = ground arith
Turn-living (overtaken e) = ground arith
Turn-living (leaves e d) = ground arith
Turn-living (rests e d f) = ground arith
Turn-living (restarts e d f) = ground arith
Turn-living (breaks e f) = ground arith
Turn-living (ends e f) = ground arith
Turn-living (dropped e d) = ground arith
Turn-living (asked e d) = d

pub Trail-final : {l m : Life} → Trail l m → is_terminal l.state ≡ true → m ≡ l
Trail-final stay h = refl
Trail-final {l} (turn {m} p t) h =
    let e = Trail-final p h in
    let alive = Turn-living t in absurd (let x = ap (λ (k : Life). is_terminal k.state) e in cc)

-- Every fiber's life goes on by turns.
pub record Cycles (s t : Shared) : Type 0 where
  pub trails : (g : ℕ) → Trail (life s g) (life t g)

pub record AllSane (s : Shared) : Type 0 where
  pub sane : (g : ℕ) → Sane (life s g)

pub Cycles-trans : {s t u : Shared} → Cycles s t → Cycles t u → Cycles s u
Cycles-trans a b = record { trails = λ g. Trail-trans (a.trails g) (b.trails g) }

pub Cycles-same : (s t : Shared) → ((g : ℕ) → life t g ≡ life s g) → Cycles s t
Cycles-same s t e = record { trails = λ g. subst (Trail (life s g)) (sym (e g)) stay }

pub Cycles-AllSane : {s t : Shared} → Cycles s t → AllSane s → AllSane t
Cycles-AllSane c v = record { sane = λ g. Trail-Sane (c.trails g) (v.sane g) }
