-- ===== src/Wasm/Update/Versions.antt =====
-- Which version a handle is at: its fiber runs the bytes that it keeps, on every way through Load
-- and Update.
use stc_go.Base.{ℕ, ◌≤◌, ◌≡◌, Option, some}
use stc_go.Key.{Typ}
use stc_go.Store.{Shared}
use stc_go.Wasm.Instance.{Wazero}
use stc_go.Wasm.Update.{System, Handle, UpdateError}

-- The fiber that a handle names runs the bytes that the handle keeps.
abbrev pub IsCurrent : {W : Type 0} → Handle → System W → Type 0
IsCurrent h s = (h.fiber ≤ s.shared.seq) × ((s.shared.fibers h.fiber).comp.apply ≡ some h.src)

-- Meanwhile no fiber changes its component, and numbers are only given out.
pub record Keeps (s t : Shared) : Type 0 where
  pub seq : s.seq ≤ t.seq
  pub comp : (f : ℕ) → f ≤ s.seq → (t.fibers f).comp ≡ (s.fibers f).comp

module _ {W : Type 0} (string_typ : Typ) (z : Wazero W) (wait : ℕ → System W → System W)
    (keeps : (n : ℕ) (s : System W) → Keeps s.shared (wait n s).shared) where
  -- What Update returns: its handle is current.
  Good : Option UpdateError × Handle × System W → Type 0
  Good (e, h, s) = IsCurrent h s
