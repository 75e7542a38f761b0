-- ===== src/Hmr/Warrant.antt =====
-- What a reload goes back to: an event of the file, and a read.
use stc_go.Base.{
  ℕ, ◌+◌, ◌≤◌, ◌≡◌, ◌⊎◌, refl, sym, subst, Bool, Bool-cases, true, false, Option, none, some, List,
  [], ◌∷◌, ◌++◌, All, All-append, In, In-append_left, In-append_right, inl, inr, arith, if_both,
  ◌==◌, leb,
}
use stc_go.Key.{Typ}
use stc_go.Watch.{Raw}
use stc_go.Wasm.Instance.{Wazero}
use stc_go.Wasm.Update.{System, Handle, UpdateError, update}
use stc_go.Wasm.Update.Errors.{chosen, update-src}
use stc_go.Orchestrator.Settle.{unsome}
use stc_go.Hmr.{
  ReadResult, content, unreadable, Report, read_failed, watch_failed, Signal, stopped,
  events_closed, errors_closed, failure, raw, tick, Loop, start, relevant, outcome, report, reload,
  on_event, on_tick, dispatch, step, run,
}

-- An event of the file that the window before the time has seen the end of.
pub record Cause (base debounce : ℕ) (gs : List (ℕ × Signal)) (now : ℕ) : Type 0 where
  pub at : ℕ
  pub event : Raw
  pub seen : In (at, raw event) gs
  pub named : event.base ≡ base
  pub counts : relevant event.bits ≡ true
  pub waited : at + debounce ≤ now

-- The bytes were there before, or are what one of the reads gave.
abbrev pub IsFrom : (ℕ → ReadResult) → ℕ → List ℕ → ℕ → Type 0
IsFrom read_file before reads src =
    (src ≡ before) ⊎ ((t : ℕ) × In t reads × (read_file t ≡ content src))

later_Cause :
    (base debounce : ℕ) (gs : List (ℕ × Signal)) (d now : ℕ)
    → d ≤ now
    → Cause base debounce gs d
    → Cause base debounce gs now
later_Cause base debounce gs d now h c = record {
  at = c.at;
  event = c.event;
  seen = c.seen;
  named = c.named;
  counts = c.counts;
  waited = omega (arith, c.waited, h);
}

module _ {W : Type 0} (string_typ : Typ) (z : Wazero W) (wait : ℕ → System W → System W)
    (read_file : ℕ → ReadResult) (listens : Bool) (base debounce : ℕ) (gs : List (ℕ × Signal))
    (before : ℕ) where
  record IsWarranted (l : Loop W) : Type 0 where
    armed : (d : ℕ) → l.deadline ≡ some d → Cause base debounce gs d
    read : All (Cause base debounce gs) l.reads
    source : IsFrom read_file before l.reads l.handle.src

  report-IsWarranted :
      (r : Report) (l : Loop W)
      → IsWarranted l
      → IsWarranted (report string_typ z wait read_file listens base debounce r l)
  unfolding report
  report-IsWarranted r l v =
      if_both IsWarranted listens (record { armed = v.armed; read = v.read; source = v.source }) v

  -- The handle after an Update with what a read gave.
  chosen-IsFrom :
      (now : ℕ) (reads : List ℕ) (e : Option UpdateError) (src old : ℕ)
      → read_file now ≡ content src
      → In now reads
      → IsFrom read_file before reads old
      → IsFrom read_file before reads (chosen e src old)
  unfolding chosen
  chosen-IsFrom now reads none src old r m v = inr (now, m, r)
  chosen-IsFrom now reads (some e) src old r m v = v

  reload-IsWarranted :
      (l : Loop W) (now : ℕ) (r : ReadResult)
      → read_file now ≡ r
      → In now l.reads
      → IsWarranted l
      → IsWarranted (reload string_typ z wait read_file listens base debounce l r)
  unfolding reload
  reload-IsWarranted l now (unreadable n) e m v = report-IsWarranted (read_failed n) l v
  reload-IsWarranted l now (content src) e m v =
      let (o, h, s) = update string_typ z wait l.handle src l.system in
      report-IsWarranted (outcome o) (record l { handle = h; system = s })
        (record {
          armed = v.armed;
          read = v.read;
          source =
              subst (IsFrom read_file before l.reads)
                (sym (update-src string_typ z wait l.handle src l.system))
                (chosen-IsFrom now l.reads o src l.handle.src e m v.source);
        })

  fired : Loop W → ℕ → Loop W
  fired l now = record l { deadline = none; reads = l.reads ++ now ∷ [] }

  fired-IsWarranted :
      (l : Loop W) (now : ℕ)
      → Cause base debounce gs now
      → IsWarranted l
      → IsWarranted (fired l now)
  unfolding fired
  fired-IsWarranted l now c v = record {
    armed = λ d e. cc;
    read = All-append _ l.reads (now ∷ []) v.read (c, tt);
    source = elim v.source [
      | inl e ↦ inl e
      | inr (t, m, e) ↦ inr (t, In-append_left t l.reads (now ∷ []) m, e)
    ];
  }

  tick-IsWarranted :
      (now : ℕ) (l : Loop W) (d : Option ℕ)
      → l.deadline ≡ d
      → IsWarranted l
      → IsWarranted (on_tick string_typ z wait read_file listens base debounce now l d)
  unfolding on_tick fired
  tick-IsWarranted now l none e v = v
  tick-IsWarranted now l (some d) e v = elim (Bool-cases (leb d now)) [
    | inl k ↦ rw k (
        reload-IsWarranted (fired l now) now (read_file now) refl
          (In-append_right now l.reads (now ∷ []) (inl refl))
          (fired-IsWarranted l now (later_Cause base debounce gs d now (ground arith) (v.armed d e))
            v))
    | inr k ↦ rw k v
  ]

  event-IsWarranted :
      (now : ℕ) (l : Loop W) (x : Raw)
      → In (now, raw x) gs
      → IsWarranted l
      → IsWarranted (on_event string_typ z wait read_file listens base debounce now l x)
  unfolding on_event
  event-IsWarranted now l x m v = elim (Bool-cases (x.base == base)) [
    | inr k ↦ rw k v
    | inl k ↦ elim (Bool-cases (relevant x.bits)) [
      | inr n ↦ rw (k, n) v
      | inl n ↦
          rw (k, n)
            (record {
              armed = λ d e. subst (Cause base debounce gs) (unsome e) (record {
                at = now;
                event = x;
                seen = m;
                named = ground arith;
                counts = n;
                waited = omega arith;
              });
              read = v.read;
              source = v.source;
            })
    ]
  ]

  stopped-IsWarranted :
      (l : Loop W) → IsWarranted l → IsWarranted (record l { running = false; deadline = none })
  stopped-IsWarranted l v = record { armed = λ d e. cc; read = v.read; source = v.source }

  dispatch-IsWarranted :
      (now : ℕ) (l : Loop W) (g : Signal)
      → In (now, g) gs
      → IsWarranted l
      → IsWarranted (dispatch string_typ z wait read_file listens base debounce now l g)
  unfolding dispatch
  dispatch-IsWarranted now l stopped m v = stopped-IsWarranted l v
  dispatch-IsWarranted now l events_closed m v = stopped-IsWarranted l v
  dispatch-IsWarranted now l errors_closed m v = stopped-IsWarranted l v
  dispatch-IsWarranted now l (failure n) m v = report-IsWarranted (watch_failed n) l v
  dispatch-IsWarranted now l (raw x) m v = event-IsWarranted now l x m v
  dispatch-IsWarranted now l tick m v = tick-IsWarranted now l l.deadline refl v

  run-IsWarranted :
      (l : Loop W) (hs : List (ℕ × Signal))
      → ((x : ℕ × Signal) → In x hs → In x gs)
      → IsWarranted l
      → IsWarranted (run string_typ z wait read_file listens base debounce l hs)
  unfolding run step
  run-IsWarranted l [] sub v = v
  run-IsWarranted l ((now, g) ∷ hs) sub v =
      run-IsWarranted (step string_typ z wait read_file listens base debounce l (now, g)) hs
        (λ x m. sub x (inr m))
        (if_both IsWarranted l.running (dispatch-IsWarranted now l g (sub (now, g) (inl refl)) v) v)

-- Over any sequence of signals the reload watcher, from its start, reads its file only at times at
-- which a write, a create or a rename of the file was signalled at least the debounce window
-- before; and the bytes that the handle keeps in the end are those that it had, or the content
-- that one of these reads gave.
pub run-Cause :
    {W : Type 0} (string_typ : Typ) (z : Wazero W) (wait : ℕ → System W → System W)
    (read_file : ℕ → ReadResult) (listens : Bool) (base debounce : ℕ) (h : Handle) (s : System W)
    (gs : List (ℕ × Signal))
    → let l = run string_typ z wait read_file listens base debounce (start h s) gs in
      All (Cause base debounce gs) l.reads × IsFrom read_file h.src l.reads l.handle.src
unfolding start
run-Cause string_typ z wait read_file listens base debounce h s gs =
    let v =
      run-IsWarranted string_typ z wait read_file listens base debounce gs h.src (start h s) gs
        (λ x m. m) (record { armed = λ d e. cc; read = tt; source = inl refl }) in
    (v.read, v.source)
