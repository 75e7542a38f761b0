-- ===== src/Trace/Bound.antt =====
-- The bound on the trace: an event is dropped only to make room, and the oldest one goes first.
use stc_go.Base.{
  ◌+◌, ◌≤◌, ◌<◌, ◌≡◌, refl, inl, inr, List, [], ◌∷◌, ◌++◌, length, length-append, Bool-cases, arith,
  leb, ltb, if◌then◌else◌,
}
use stc_go.Trace.{TraceEvent, trace_cap, drop_oldest, push_event}

-- What is dropped from the trace to make room.
dropped : List TraceEvent → List TraceEvent
dropped [] = []
dropped (x ∷ xs) = x ∷ []

split_oldest :
    (t : List TraceEvent) (e : TraceEvent) → t ++ e ∷ [] ≡ dropped t ++ (drop_oldest t ++ e ∷ [])
unfolding dropped drop_oldest
split_oldest [] e = refl
split_oldest (x ∷ xs) e = refl

length-drop_oldest : (t : List TraceEvent) → 0 < length t → length (drop_oldest t) + 1 ≡ length t
unfolding drop_oldest
length-drop_oldest [] h = omega (arith, h)
length-drop_oldest (x ∷ xs) h = omega arith

-- From a trace within the bound, the new trace is the end of the old one with the new event: all
-- of it while there is room, and otherwise as many events as the bound allows.
pub push_event-suffix :
    (t : List TraceEvent) (e : TraceEvent)
    → length t ≤ trace_cap
    → ((d : List TraceEvent) × (t ++ e ∷ [] ≡ d ++ push_event t e))
      × (length (push_event t e) ≡ (if ltb (length t) trace_cap then length t + 1 else trace_cap))
unfolding push_event
push_event-suffix t e h = elim (Bool-cases (leb trace_cap (length t))) [
  | inl b ↦ rw b (
    (dropped t, split_oldest t e),
    ground (arith, length-append (drop_oldest t) (e ∷ []), length-drop_oldest t),
  )
  | inr b ↦ rw b (([], refl), ground (arith, length-append t (e ∷ [])))
]
