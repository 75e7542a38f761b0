-- ===== src/Watch.antt =====
-- watch/watch.go: the event loop. File events are debounced, and what is left of a burst
-- fires once. Times are nanoseconds of one clock; paths are told apart by numbers.
pub mod Debounce
pub mod Opening
use stc_go.Base.{
  ℕ, ◌+◌, Bool, true, false, Option, none, some, List, [], ◌∷◌, ◌++◌, if◌then◌else◌, ◌==◌, leb,
}
use stc_go.Key.{Text}

-- The bits of fsnotify.Op, as `Op.Has` tests them.
pub record Bits : Type 0 where
  pub create : Bool
  pub write : Bool
  pub remove : Bool
  pub rename : Bool

pub data Op : Type 0 where
  create_op write_op remove_op rename_op : Op

-- Op.String
unfoldable pub op_text : Op → Text
op_text create_op = 99 ∷ 114 ∷ 101 ∷ 97 ∷ 116 ∷ 101 ∷ []
op_text write_op = 119 ∷ 114 ∷ 105 ∷ 116 ∷ 101 ∷ []
op_text remove_op = 114 ∷ 101 ∷ 109 ∷ 111 ∷ 118 ∷ 101 ∷ []
op_text rename_op = 114 ∷ 101 ∷ 110 ∷ 97 ∷ 109 ∷ 101 ∷ []

-- classify: nothing for a chmod.
unfoldable pub classify : Bits → Option Op
classify b =
    if b.remove
    then some remove_op
    else if b.rename
    then some rename_op
    else if b.create
    then some create_op
    else if b.write
    then some write_op
    else none

-- A raw event: its path, the base name of the path, and the bits.
pub record Raw : Type 0 where
  pub path : ℕ
  pub base : ℕ
  pub bits : Bits

pub record Event : Type 0 where
  pub path : ℕ
  pub op : Op

-- What the loops can receive: the context's end or the close, an event, the closing of the event
-- channel, an error, the closing of the error channel, and the timer, each at its time.
pub data Signal : Type 0 where
  stopped events_closed errors_closed failure : Signal
  raw : Raw → Signal
  tick : Signal

-- The variables of the loop: the timer's deadline, the last event, and whether the loop runs; and
-- the events that `onFire` was called with.
pub record Loop : Type 0 where
  pub deadline : Option ℕ
  pub last : Option Event
  pub running : Bool
  pub fired : List Event

unfoldable pub start : Loop
start = record { deadline = none; last = none; running = true; fired = [] }

-- `base != "" && filepath.Base(ev.Name) != base`
unfoldable pub passes : Option ℕ → Raw → Bool
passes none r = true
passes (some b) r = r.base == b

arm : Loop → ℕ → Event → Loop
arm l at e = record l { deadline = some at; last = some e }

on_event : Option ℕ → ℕ → ℕ → Loop → Raw → Option Op → Loop
on_event base debounce now l r none = l
on_event base debounce now l r (some op) =
    if passes base r then arm l (now + debounce) (record { path = r.path; op = op }) else l

fire : Loop → Option Event → Loop
fire l none = record l { deadline = none }
fire l (some e) = record l { deadline = none; fired = l.fired ++ e ∷ [] }

-- The timer's channel is ready once its deadline has come.
on_tick : ℕ → Loop → Option ℕ → Loop
unfolding fire
on_tick now l none = l
on_tick now l (some d) = if leb d now then fire l l.last else l

dispatch : Option ℕ → ℕ → ℕ → Loop → Signal → Loop
unfolding on_event on_tick arm classify passes
dispatch base debounce now l stopped = record l { running = false; deadline = none }
dispatch base debounce now l events_closed = record l { running = false; deadline = none }
dispatch base debounce now l errors_closed = record l { running = false; deadline = none }
dispatch base debounce now l failure = l
dispatch base debounce now l (raw r) = on_event base debounce now l r (classify r.bits)
dispatch base debounce now l tick = on_tick now l l.deadline

-- One round of the select loop.
unfoldable pub step : Option ℕ → ℕ → Loop → ℕ × Signal → Loop
unfolding dispatch
step base debounce l (now, g) = if l.running then dispatch base debounce now l g else l

unfoldable pub run : Option ℕ → ℕ → Loop → List (ℕ × Signal) → Loop
run base debounce l [] = l
run base debounce l (g ∷ gs) = run base debounce (step base debounce l g) gs
