-- ===== src/Hmr/Debounce.antt =====
-- The reload watcher debounces as the file watcher does, but for the removals, which it ignores.
use stc_go.Base.{
  ℕ, ◌≡◌, ◌≢◌, ◌⊎◌, inl, inr, refl, ◌∙◌, sym, subst, Option-cases, Bool-cases, Bool, true, false,
  none, some, List, [], ◌∷◌, ◌++◌, length, length-append, arith, if_both, if◌then◌else◌,
}
use stc_go.Key.{Typ}
use stc_go.Watch
use stc_go.Watch.{Raw}
use stc_go.Watch.Debounce.{stopped_step}
use stc_go.Wasm.Instance.{Wazero}
use stc_go.Wasm.Update.{System, Handle, update}
use stc_go.Hmr.{
  ReadResult, content, unreadable, Report, read_failed, watch_failed, Signal, stopped,
  events_closed, errors_closed, failure, raw, tick, Loop, start, relevant, outcome, report, reload,
  on_event, on_tick, dispatch, step, run,
}

-- The same event without the bit of a removal.
abbrev pub without_remove : Raw → Raw
without_remove r = record r { bits = record r.bits { remove = false } }

-- What the loop of the file watcher receives in its place.
abbrev pub as_watched : Signal → Watch.Signal
as_watched stopped = Watch.stopped
as_watched events_closed = Watch.events_closed
as_watched errors_closed = Watch.errors_closed
as_watched (failure n) = Watch.failure
as_watched (raw r) = Watch.raw (without_remove r)
as_watched tick = Watch.tick

abbrev pub all_watched : List (ℕ × Signal) → List (ℕ × Watch.Signal)
all_watched [] = []
all_watched ((now, g) ∷ gs) = (now, as_watched g) ∷ all_watched gs

module _ {W : Type 0} (string_typ : Typ) (z : Wazero W) (wait : ℕ → System W → System W)
    (read_file : ℕ → ReadResult) (listens : Bool) (base debounce : ℕ) where
  -- The two loops agree; a timer that runs has an event to fire with.
  record Agrees (l : Loop W) (w : Watch.Loop) : Type 0 where
    deadline : l.deadline ≡ w.deadline
    running : l.running ≡ w.running
    count : length l.reads ≡ length w.fired
    held : w.deadline ≡ none ⊎ w.last ≢ none

  -- What a report or an update leaves.
  record Kept (l l' : Loop W) : Type 0 where
    deadline : l'.deadline ≡ l.deadline
    running : l'.running ≡ l.running
    reads : l'.reads ≡ l.reads

  report-Kept :
      (r : Report) (l : Loop W)
      → Kept l (report string_typ z wait read_file listens base debounce r l)
  unfolding report
  report-Kept r l =
      if_both (Kept l) listens (record { deadline = refl; running = refl; reads = refl })
        (record { deadline = refl; running = refl; reads = refl })

  reload-Kept :
      (l : Loop W) (r : ReadResult)
      → Kept l (reload string_typ z wait read_file listens base debounce l r)
  unfolding reload
  reload-Kept l (unreadable n) = report-Kept (read_failed n) l
  reload-Kept l (content src) =
      let (e, h, s) = update string_typ z wait l.handle src l.system in
      let k = report-Kept (outcome e) (record l { handle = h; system = s }) in
      record { deadline = k.deadline; running = k.running; reads = k.reads }

  Kept-Agrees : (l l' : Loop W) (w : Watch.Loop) → Kept l l' → Agrees l w → Agrees l' w
  Kept-Agrees l l' w k a = ground (arith)

  event-Agrees :
      (now : ℕ) (l : Loop W) (w : Watch.Loop) (r : Raw)
      → w.running ≡ true
      → Agrees l w
      → Agrees
          (on_event string_typ z wait read_file listens base debounce now l r)
          (Watch.step (some base) debounce w (now, Watch.raw (without_remove r)))
  unfolding on_event relevant Watch.step Watch.classify Watch.passes
  event-Agrees now l w r run a = ground arith

  tick-Agrees :
      (now : ℕ) (l : Loop W) (w : Watch.Loop)
      → w.running ≡ true
      → Agrees l w
      → Agrees
          (on_tick string_typ z wait read_file listens base debounce now l l.deadline)
          (Watch.step (some base) debounce w (now, Watch.tick))
  unfolding on_tick Watch.step
  tick-Agrees now l w run a =
      let more = length-append l.reads (now ∷ []) in
      let kept =
        reload-Kept (record l { deadline = none; reads = l.reads ++ now ∷ [] }) (read_file now) in
      elim (Option-cases w.last) [
        | inl n ↦ ground (arith, n)
        | inr (e, h) ↦ ground (arith, h, length-append w.fired (e ∷ []), more, kept)
      ]

  dispatch-Agrees :
      (now : ℕ) (l : Loop W) (w : Watch.Loop) (g : Signal)
      → w.running ≡ true
      → Agrees l w
      → Agrees
          (dispatch string_typ z wait read_file listens base debounce now l g)
          (Watch.step (some base) debounce w (now, as_watched g))
  unfolding dispatch Watch.step
  dispatch-Agrees now l w stopped run a = ground arith
  dispatch-Agrees now l w events_closed run a = ground arith
  dispatch-Agrees now l w errors_closed run a = ground arith
  dispatch-Agrees now l w (failure n) run a = ground (arith, report-Kept (watch_failed n) l)
  dispatch-Agrees now l w (raw r) run a = event-Agrees now l w r run a
  dispatch-Agrees now l w tick run a = tick-Agrees now l w run a

  step-Agrees :
      (l : Loop W) (w : Watch.Loop) (now : ℕ) (g : Signal)
      → Agrees l w
      → Agrees
          (step string_typ z wait read_file listens base debounce l (now, g))
          (Watch.step (some base) debounce w (now, as_watched g))
  unfolding step
  step-Agrees l w now g a =
      let w' = Watch.step (some base) debounce w (now, as_watched g) in
      let l' = dispatch string_typ z wait read_file listens base debounce now l g in
      elim (Bool-cases w.running) [
        | inl run ↦
            subst (λ (b : Bool). Agrees (if b then l' else l) w') (sym (a.running ∙ run))
              (dispatch-Agrees now l w g run a)
        | inr off ↦
            subst (λ (b : Bool). Agrees (if b then l' else l) w') (sym (a.running ∙ off))
              (subst (Agrees l) (sym (stopped_step (some base) debounce w (now, as_watched g) off))
                a)
      ]

  run-Agrees :
      (l : Loop W) (w : Watch.Loop) (gs : List (ℕ × Signal))
      → Agrees l w
      → Agrees
          (run string_typ z wait read_file listens base debounce l gs)
          (Watch.run (some base) debounce w (all_watched gs))
  unfolding run Watch.run
  run-Agrees l w [] a = a
  run-Agrees l w ((now, g) ∷ gs) a =
      run-Agrees (step string_typ z wait read_file listens base debounce l (now, g))
        (Watch.step (some base) debounce w (now, as_watched g)) gs (step-Agrees l w now g a)

  -- Over any sequence of signals the loop of the reload watcher runs as long, waits for the same
  -- deadline and reads its file as often as the loop of the file watcher would fire, if that one
  -- watched the same base name and saw the events without their removal bits.
  pub run-as_watched :
      (h : Handle) (s : System W) (gs : List (ℕ × Signal))
      → let l = run string_typ z wait read_file listens base debounce (start h s) gs in
        let w = Watch.run (some base) debounce Watch.start (all_watched gs) in
        (l.running ≡ w.running) × (l.deadline ≡ w.deadline) × (length l.reads ≡ length w.fired)
  unfolding start Watch.start
  run-as_watched h s gs =
      let a =
        run-Agrees (start h s) Watch.start gs
          (record { deadline = refl; running = refl; count = refl; held = inl refl }) in
      (a.running, a.deadline, a.count)
