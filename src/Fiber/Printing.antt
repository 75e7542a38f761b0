-- ===== src/Fiber/Printing.antt =====
-- fiber.go and trace.go: the names that states and trace events are printed by.
use stc_go.Base.{◌≡◌, refl, arith}
use stc_go.Store.{FiberState}
use stc_go.Store
use stc_go.Trace.{kind_text}
use stc_go.Fiber.{state_text, trace_kind}

-- The event of a change of state is printed as the state is.
kind_text-trace_kind : (st : FiberState) → kind_text (trace_kind st) ≡ state_text st
unfolding kind_text state_text
kind_text-trace_kind Store.pending = refl
kind_text-trace_kind Store.loading = refl
kind_text-trace_kind Store.active = refl
kind_text-trace_kind Store.unloading = refl
kind_text-trace_kind Store.failed = refl
kind_text-trace_kind Store.gone = refl

-- No two states are printed alike.
state_text-injective : (a b : FiberState) → state_text a ≡ state_text b → a ≡ b
unfolding state_text
state_text-injective Store.pending b e = ground (arith, e)
state_text-injective Store.loading b e = ground (arith, e)
state_text-injective Store.active b e = ground (arith, e)
state_text-injective Store.unloading b e = ground (arith, e)
state_text-injective Store.failed b e = ground (arith, e)
state_text-injective Store.gone b e = ground (arith, e)
