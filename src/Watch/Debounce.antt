-- ===== src/Watch/Debounce.antt =====
-- The debounced loop.
use stc_go.Base.{
  ℕ, ◌+◌, ◌≤◌, ◌<◌, ◌≡◌, ◌≢◌, refl, sym, ap, ◌∙◌, ◌⊎◌, inl, inr, true, false, Option, none, some,
  List, [], ◌∷◌, ◌++◌, arith, Option-cases,
}
use stc_go.Watch
use stc_go.Watch.{Op, classify, Raw, Event, Signal, raw, tick, Loop, passes, step, run}

-- A burst: each event matches, and comes before the deadline that the one before it set.
abbrev pub IsBurst : Option ℕ → ℕ → ℕ → List (ℕ × Raw) → Type 0
IsBurst base debounce last [] = Unit {0}
IsBurst base debounce last ((now, r) ∷ rs) =
    (now < last + debounce)
    × (passes base r ≡ true)
    × (classify r.bits ≢ none)
    × IsBurst base debounce now rs

-- The signals of a burst, with the timer looked at just before each event.
abbrev pub signals : List (ℕ × Raw) → List (ℕ × Signal)
signals [] = []
signals ((now, r) ∷ rs) = (now, tick) ∷ (now, raw r) ∷ signals rs

tick_early :
    (base : Option ℕ) (debounce now d : ℕ) (l : Loop)
    → l.deadline ≡ some d
    → now < d
    → step base debounce l (now, tick) ≡ l
unfolding step
tick_early base debounce now d l e h = ground arith

event_arms :
    (base : Option ℕ) (debounce now : ℕ) (l : Loop) (r : Raw) (op : Op)
    → l.running ≡ true
    → passes base r ≡ true
    → classify r.bits ≡ some op
    → step base debounce l (now, raw r) ≡ record l {
      deadline = some (now + debounce);
      last = some (record { path = r.path; op = op });
    }
unfolding step
event_arms base debounce now l r op run h c = ground arith

abbrev op_event : Event → ℕ → Option Op → Event
op_event e path none = e
op_event e path (some op) = record { path = path; op = op }

-- The event that the window holds, `e` before the burst.
abbrev pub last_event : Event → List (ℕ × Raw) → Event
last_event e [] = e
last_event e ((now, r) ∷ rs) = last_event (op_event e r.path (classify r.bits)) rs

abbrev pub last_time : ℕ → List (ℕ × Raw) → ℕ
last_time t [] = t
last_time t ((now, r) ∷ rs) = last_time now rs

-- The loop inside a window: it was armed at time `t` and holds the event.
abbrev armed : Loop → ℕ → ℕ → Event → Loop
armed l debounce t e = record l { deadline = some (t + debounce); last = some e }

event_in_burst :
    (base : Option ℕ) (debounce t now : ℕ) (l : Loop) (e : Event) (r : Raw)
    → l.running ≡ true
    → now < t + debounce
    → passes base r ≡ true
    → classify r.bits ≢ none
    → step base debounce (step base debounce (armed l debounce t e) (now, tick)) (now, raw r)
      ≡ armed l debounce now (op_event e r.path (classify r.bits))
event_in_burst base debounce t now l e r run h p c = elim (Option-cases (classify r.bits)) [
  | inl n ↦ absurd (c n)
  | inr (op, o) ↦ rw (tick_early base debounce now (t + debounce) (armed l debounce t e) refl h) (
      event_arms base debounce now (armed l debounce t e) r op run p o
      ∙ ap (λ x. armed l debounce now (op_event e r.path x)) (sym o))
]

burst-run :
    (base : Option ℕ) (debounce t : ℕ) (l : Loop) (e : Event) (rs : List (ℕ × Raw))
    → l.running ≡ true
    → IsBurst base debounce t rs
    → run base debounce (armed l debounce t e) (signals rs)
      ≡ armed l debounce (last_time t rs) (last_event e rs)
unfolding run
burst-run base debounce t l e [] h b = refl
burst-run base debounce t l e ((now, r) ∷ rs) h b =
    ap (λ x. run base debounce x (signals rs))
      (event_in_burst base debounce t now l e r h b.0 b.1 b.2)
    ∙ burst-run base debounce now l (op_event e r.path (classify r.bits)) rs h b.3

run-append :
    (base : Option ℕ) (debounce : ℕ) (l : Loop) (gs hs : List (ℕ × Signal))
    → run base debounce l (gs ++ hs) ≡ run base debounce (run base debounce l gs) hs
unfolding run
run-append base debounce l [] hs = refl
run-append base debounce l (g ∷ gs) hs = run-append base debounce (step base debounce l g) gs hs

tick_late :
    (base : Option ℕ) (debounce t at : ℕ) (l : Loop) (e : Event)
    → l.running ≡ true
    → t + debounce ≤ at
    → step base debounce (armed l debounce t e) (at, tick)
      ≡ record l { deadline = none; last = some e; fired = l.fired ++ e ∷ [] }
unfolding step
tick_late base debounce t at l e run h = ground arith

-- While the loop runs, a burst of events of the watched file, each before the deadline that the
-- one before it set, fires once, however long it is: not before the window after its last event
-- has passed, and then with that event.
pub burst_fires_once :
    (base : Option ℕ) (debounce t at : ℕ) (l : Loop) (r : Raw) (op : Op) (rs : List (ℕ × Raw))
    → l.running ≡ true
    → passes base r ≡ true
    → classify r.bits ≡ some op
    → IsBurst base debounce t rs
    → last_time t rs + debounce ≤ at
    → let e : Event = record { path = r.path; op = op } in
      let burst = (t, raw r) ∷ signals rs in
      ((run base debounce l burst).fired ≡ l.fired)
      × (run base debounce l (burst ++ (at, tick) ∷ []) ≡ record l {
        deadline = none;
        last = some (last_event e rs);
        fired = l.fired ++ last_event e rs ∷ [];
      })
unfolding run
burst_fires_once base debounce t at l r op rs run p c b late =
    let e : Event = record { path = r.path; op = op } in
    let first = event_arms base debounce t l r op run p c in
    let window =
      ap (λ x. Watch.run base debounce x (signals rs)) first
      ∙ burst-run base debounce t l e rs run b in
    (
      ap (λ (x : Loop). x.fired) window,
      run-append base debounce (step base debounce l (t, raw r)) (signals rs) ((at, tick) ∷ [])
          ∙ ap (λ x. step base debounce x (at, tick)) window
          ∙ tick_late base debounce (last_time t rs) at l (last_event e rs) run late,
    )

-- An event of another file, or a mere chmod, neither arms nor postpones: it leaves the loop as it
-- was.
pub ignored_event :
    (base : Option ℕ) (debounce now : ℕ) (l : Loop) (r : Raw)
    → (passes base r ≡ false) ⊎ (classify r.bits ≡ none)
    → step base debounce l (now, raw r) ≡ l
unfolding step
ignored_event base debounce now l r h = ground arith

pub stopped_step :
    (base : Option ℕ) (debounce : ℕ) (l : Loop) (g : ℕ × Signal)
    → l.running ≡ false
    → step base debounce l g ≡ l
unfolding step
stopped_step base debounce l (now, g) h = ground arith

-- Once the watcher's loop has ended it fires no more, whatever comes.
pub stopped_run :
    (base : Option ℕ) (debounce : ℕ) (l : Loop) (gs : List (ℕ × Signal))
    → l.running ≡ false
    → run base debounce l gs ≡ l
unfolding run
stopped_run base debounce l [] h = refl
stopped_run base debounce l (g ∷ gs) h =
    ap (λ x. run base debounce x gs) (stopped_step base debounce l g h)
    ∙ stopped_run base debounce l gs h
