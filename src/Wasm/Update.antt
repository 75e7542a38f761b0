-- ===== src/Wasm/Update.antt =====
-- wasm/wasm.go: Load, Update and Dispose of a handle, on the fibers that they load and dispose of.
pub mod Errors
pub mod Versions
use stc_go.Base.{ℕ, Option, none, some}
use stc_go.Key.{Typ, Error, canceled}
use stc_go.Store.{Shared}
use stc_go.Fiber.{load, dispose, ready_now, gone_now}
use stc_go.Wasm.Runtime.{Options, component}
use stc_go.Wasm.Instance.{Wazero}
use stc_go.Wasm.Lifecycle.{Cell, probe}

pub record System (W : Type 0) : Type 0 where
  pub shared : Shared
  pub cell : Cell W

-- The handle; the runtime and the reference stand in the cell.
pub record Handle : Type 0 where
  pub home : ℕ
  pub opts : Options
  pub src : ℕ
  pub fiber : ℕ

pub data UpdateError : Type 0 where
  probe_failed : ℕ → UpdateError
  not_gone rolled_back : Error → UpdateError
  lost : Error → Error → UpdateError

pub data Loaded : Type 0 where
  handle_of : Handle → Loaded
  probe_error : ℕ → Loaded
  load_error : Error → Loaded

-- What a wait that ended without a stable state returns is the error of the caller's context.
waited : Option (Option Error) → Option Error
waited none = some canceled
waited (some e) = e

-- `wait` is what the orchestrator, the fibers and the callers do while Update waits for the first,
-- second or third time: until the fiber is stable, or the caller's context has ended.
module _ {W : Type 0} (string_typ : Typ) (z : Wazero W) (wait : ℕ → System W → System W) where
  -- Gone, of a fiber
  unfoldable pub gone : ℕ → System W → ℕ → Option Error × System W
  unfolding waited
  gone n s f = let t = wait n s in (waited (gone_now (t.shared.fibers f)), t)

  -- Ready, of a fiber
  unfoldable pub ready : ℕ → System W → ℕ → Option Error × System W
  unfolding waited
  ready n s f = let t = wait n s in (waited (ready_now (t.shared.fibers f)), t)

  -- `home.Load(rt.component(src, opts, ref))`
  unfoldable pub load_version : System W → ℕ → Options → ℕ → ℕ × System W
  load_version s home opts src =
      let (comp, rt) = component string_typ s.cell.runtime src opts in
      let (f, sh) = load s.shared home comp in
      (f, record { shared = sh; cell = record s.cell { runtime = rt } })

  after_rollback :
      Handle → Error → ℕ → Option Error × System W → Option UpdateError × Handle × System W
  after_rollback h e rb (none, s) = (some (rolled_back e), record h { fiber = rb }, s)
  after_rollback h e rb (some e', s) = (some (lost e e'), h, s)

  -- The previous bytes are loaded again.
  roll_back : Handle → Error → System W → Option UpdateError × Handle × System W
  unfolding after_rollback
  roll_back h e s =
      let (rb, s') = load_version s h.home h.opts h.src in after_rollback h e rb (ready 3 s' rb)

  after_load : Handle → ℕ → ℕ → Option Error × System W → Option UpdateError × Handle × System W
  unfolding roll_back
  after_load h src nf (none, s) = (none, record h { src = src; fiber = nf }, s)
  after_load h src nf (some e, s) = roll_back h e s

  load_new : Handle → ℕ → System W → Option UpdateError × Handle × System W
  unfolding after_load
  load_new h src s =
      let (nf, s') = load_version s h.home h.opts src in after_load h src nf (ready 2 s' nf)

  after_gone : Handle → ℕ → Option Error × System W → Option UpdateError × Handle × System W
  unfolding load_new
  after_gone h src (some e, s) = (some (not_gone e), h, s)
  after_gone h src (none, s) = load_new h src s

  replace : Handle → ℕ → System W → Option UpdateError × Handle × System W
  unfolding after_gone
  replace h src s =
      after_gone h src (gone 1 (record s { shared = dispose s.shared h.fiber }) h.fiber)

  after_probe : Handle → ℕ → System W → Option ℕ × Cell W → Option UpdateError × Handle × System W
  unfolding replace
  after_probe h src s (some n, c) = (some (probe_failed n), h, record s { cell = c })
  after_probe h src s (none, c) = replace h src (record s { cell = c })

  -- Update
  unfoldable pub update : Handle → ℕ → System W → Option UpdateError × Handle × System W
  unfolding after_probe
  update h src s = after_probe h src s (probe z s.cell h.opts.name src)

  first_ready : ℕ → Options → ℕ → ℕ → Option Error × System W → Loaded × System W
  first_ready home opts src f (none, s) =
      (handle_of (record { home = home; opts = opts; src = src; fiber = f }), s)
  first_ready home opts src f (some e, s) = (load_error e, s)

  first_load : ℕ → Options → ℕ → System W → Option ℕ × Cell W → Loaded × System W
  unfolding first_ready
  first_load home opts src s (some n, c) = (probe_error n, record s { cell = c })
  first_load home opts src s (none, c) =
      let (f, s') = load_version (record s { cell = c }) home opts src in
      first_ready home opts src f (ready 0 s' f)

  -- Load
  unfoldable pub load_handle : ℕ → Options → ℕ → System W → Loaded × System W
  unfolding first_load
  load_handle home opts src s = first_load home opts src s (probe z s.cell opts.name src)

-- Dispose
unfoldable pub dispose_handle : {W : Type 0} → Handle → System W → System W
dispose_handle h s = record s { shared = dispose s.shared h.fiber }

-- Handle.Fiber
unfoldable pub fiber_of : Handle → ℕ
fiber_of h = h.fiber
