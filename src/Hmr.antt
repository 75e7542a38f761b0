-- ===== src/Hmr.antt =====
-- hmr/hmr.go: the watcher of one WASM file, which drives Handle.Update. The file system is a
-- parameter: what ReadFile gives at a time. Times and paths are those of watch/watch.go's model.
pub mod Debounce
pub mod Warrant
use stc_go.Base.{
  ℕ, ◌+◌, Bool, true, false, ◌||◌, Option, none, some, List, [], ◌∷◌, ◌++◌, if◌then◌else◌, ◌==◌,
  leb,
}
use stc_go.Key.{Typ}
use stc_go.Watch.{Bits, Raw}
use stc_go.Wasm.Instance.{Wazero}
use stc_go.Wasm.Update.{System, Handle, UpdateError, update}

-- The content, told apart by a number, or the error of the read.
pub data ReadResult : Type 0 where
  content : ℕ → ReadResult
  unreadable : ℕ → ReadResult

-- What OnReload is called with.
pub data Report : Type 0 where
  reloaded : Report
  update_failed : UpdateError → Report
  read_failed : ℕ → Report
  watch_failed : ℕ → Report

-- What the loop can receive.
pub data Signal : Type 0 where
  stopped events_closed errors_closed : Signal
  failure : ℕ → Signal
  raw : Raw → Signal
  tick : Signal

-- The variables of the loop with the handle and what it acts on; `reads` are the times at which
-- the file was read, and `reports` the calls of OnReload.
pub record Loop (W : Type 0) : Type 0 where
  pub deadline : Option ℕ
  pub running : Bool
  pub handle : Handle
  pub system : System W
  pub reads : List ℕ
  pub reports : List Report

unfoldable pub start : {W : Type 0} → Handle → System W → Loop W
start h s = record {
  deadline = none;
  running = true;
  handle = h;
  system = s;
  reads = [];
  reports = [];
}

-- A write, a create or a rename among the bits.
unfoldable pub relevant : Bits → Bool
relevant b = b.write || (b.create || b.rename)

outcome : Option UpdateError → Report
outcome none = reloaded
outcome (some e) = update_failed e

module _ {W : Type 0} (string_typ : Typ) (z : Wazero W) (wait : ℕ → System W → System W)
    (read_file : ℕ → ReadResult) (listens : Bool) (base debounce : ℕ) where
  -- `report`: nothing where OnReload is nil.
  report : Report → Loop W → Loop W
  report r l = if listens then record l { reports = l.reports ++ r ∷ [] } else l

  reload : Loop W → ReadResult → Loop W
  unfolding report outcome
  reload l (unreadable n) = report (read_failed n) l
  reload l (content src) =
      let (e, h, s) = update string_typ z wait l.handle src l.system in
      report (outcome e) (record l { handle = h; system = s })

  on_event : ℕ → Loop W → Raw → Loop W
  unfolding relevant
  on_event now l r =
      if r.base == base
      then (if relevant r.bits then record l { deadline = some (now + debounce) } else l)
      else l

  on_tick : ℕ → Loop W → Option ℕ → Loop W
  unfolding reload
  on_tick now l none = l
  on_tick now l (some d) =
      if leb d now
      then reload (record l { deadline = none; reads = l.reads ++ now ∷ [] }) (read_file now)
      else l

  dispatch : ℕ → Loop W → Signal → Loop W
  unfolding on_event on_tick report
  dispatch now l stopped = record l { running = false; deadline = none }
  dispatch now l events_closed = record l { running = false; deadline = none }
  dispatch now l errors_closed = record l { running = false; deadline = none }
  dispatch now l (failure n) = report (watch_failed n) l
  dispatch now l (raw r) = on_event now l r
  dispatch now l tick = on_tick now l l.deadline

  -- One round of the select loop.
  unfoldable pub step : Loop W → ℕ × Signal → Loop W
  unfolding dispatch
  step l (now, g) = if l.running then dispatch now l g else l

  unfoldable pub run : Loop W → List (ℕ × Signal) → Loop W
  run l [] = l
  run l (g ∷ gs) = run (step l g) gs
