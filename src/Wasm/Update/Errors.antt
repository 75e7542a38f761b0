-- ===== src/Wasm/Update/Errors.antt =====
-- What an error of Update means for the handle.
use stc_go.Base.{ℕ, ◌≡◌, refl, Option, none, some}
use stc_go.Key.{Typ, Error}
use stc_go.Fiber.{dispose}
use stc_go.Wasm.Instance.{Wazero}
use stc_go.Wasm.Lifecycle.{probe}
use stc_go.Wasm.Update.{
  System, Handle, UpdateError, gone, ready, load_version, after_rollback, roll_back, after_load,
  load_new, after_gone, replace, after_probe, update,
}

abbrev pub chosen : Option UpdateError → ℕ → ℕ → ℕ
chosen none new old = new
chosen (some e) new old = old

module _ {W : Type 0} (string_typ : Typ) (z : Wazero W) (wait : ℕ → System W → System W) where
  -- The bytes are the new ones exactly where there is no error.
  Fate : Handle → ℕ → Option UpdateError × Handle × System W → Type 0
  Fate h src (e, h', s) = h'.src ≡ chosen e src h.src

  roll_back-Fate :
      (h : Handle) (src : ℕ) (e : Error) (s : System W)
      → Fate h src (roll_back string_typ z wait h e s)
  unfolding roll_back after_rollback Fate
  roll_back-Fate h src e s =
      let (rb, t) = load_version string_typ z wait s h.home h.opts h.src in
      let (o, u) = ready string_typ z wait 3 t rb in
      elim o as (λ x. Fate h src (after_rollback string_typ z wait h e rb (x, u))) [
        | none ↦ refl
        | some e' ↦ refl
      ]

  load_new-Fate :
      (h : Handle) (src : ℕ) (s : System W) → Fate h src (load_new string_typ z wait h src s)
  unfolding load_new after_load Fate
  load_new-Fate h src s =
      let (nf, t) = load_version string_typ z wait s h.home h.opts src in
      let (o, u) = ready string_typ z wait 2 t nf in
      elim o as (λ x. Fate h src (after_load string_typ z wait h src nf (x, u))) [
        | none ↦ refl
        | some e ↦ roll_back-Fate h src e u
      ]

  replace-Fate :
      (h : Handle) (src : ℕ) (s : System W) → Fate h src (replace string_typ z wait h src s)
  unfolding replace after_gone Fate
  replace-Fate h src s =
      let t = record s { shared = dispose s.shared h.fiber } in
      let (o, u) = gone string_typ z wait 1 t h.fiber in
      elim o as (λ x. Fate h src (after_gone string_typ z wait h src (x, u))) [
        | some e ↦ refl
        | none ↦ load_new-Fate h src u
      ]

  -- The handle keeps the new bytes where Update returns no error, and the old ones where it
  -- returns one, whichever it is.
  pub update-src :
      (h : Handle) (src : ℕ) (s : System W)
      → let (e, h', t) = update string_typ z wait h src s in h'.src ≡ chosen e src h.src
  unfolding update after_probe Fate
  update-src h src s =
      let (o, cell) = probe z s.cell h.opts.name src in
      elim o as (λ x. Fate h src (after_probe string_typ z wait h src s (x, cell))) [
        | some n ↦ refl
        | none ↦ replace-Fate h src (record s { cell = cell })
      ]
