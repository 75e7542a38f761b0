-- ===== src/Trace/Numbers.antt =====
-- The numbers of the trace: each is greater than the one before it.
use stc_go.Base.{
  ℕ, ◌≤◌, ◌<◌, List, [], ◌∷◌, ◌++◌, length, All, All-imp, All-append, arith, leb, if◌then◌else◌,
  if_both,
}
use stc_go.Trace.{TraceEvent, trace_cap, drop_oldest, push_event}
use stc_go.Trace.Bound.{push_event-suffix}

abbrev pub Rises : ℕ → List TraceEvent → Type 0
Rises n [] = Unit {0}
Rises n (e ∷ es) = (n < e.seq) × Rises e.seq es

-- The numbers rise, up to the counter, and the trace is within the bound.
pub record IsLog (n : ℕ) (t : List TraceEvent) : Type 0 where
  pub rising : Rises 0 t
  pub dated : All (λ e. e.seq ≤ n) t
  pub bounded : length t ≤ trace_cap

pub IsLog-later : (m n : ℕ) (t : List TraceEvent) → m ≤ n → IsLog m t → IsLog n t
IsLog-later m n t h v = record {
  rising = v.rising;
  dated = All-imp _ _ (λ e k. omega (arith, h, k)) t v.dated;
  bounded = v.bounded;
}

Rises-weaken : (m n : ℕ) (t : List TraceEvent) → m < n → Rises n t → Rises m t
Rises-weaken m n [] h r = tt
Rises-weaken m n (e ∷ t) h r = (omega (arith, h, r.0), r.1)

Rises-drop_oldest : (t : List TraceEvent) → Rises 0 t → Rises 0 (drop_oldest t)
unfolding drop_oldest
Rises-drop_oldest [] r = tt
Rises-drop_oldest (e ∷ t) r = Rises-weaken 0 e.seq t r.0 r.1

All-drop_oldest :
    (n : ℕ) (t : List TraceEvent) → All (λ e. e.seq ≤ n) t → All (λ e. e.seq ≤ n) (drop_oldest t)
unfolding drop_oldest
All-drop_oldest n [] v = tt
All-drop_oldest n (e ∷ t) v = v.1

Rises-append :
    (k n : ℕ) (t : List TraceEvent) (e : TraceEvent)
    → k ≤ n
    → n < e.seq
    → All (λ x. x.seq ≤ n) t
    → Rises k t
    → Rises k (t ++ e ∷ [])
Rises-append k n [] e h m a r = (omega (arith, h, m), tt)
Rises-append k n (x ∷ t) e h m a r = (r.0, Rises-append x.seq n t e a.0 m a.1 r.1)

pub IsLog-push :
    (n : ℕ) (t : List TraceEvent) (e : TraceEvent)
    → n < e.seq
    → IsLog n t
    → IsLog e.seq (push_event t e)
unfolding push_event
IsLog-push n t e h v =
    let cut = if leb trace_cap (length t) then drop_oldest t else t in
    let dated : All (λ x. x.seq ≤ n) cut =
      if_both (All (λ x. x.seq ≤ n)) (leb trace_cap (length t)) (All-drop_oldest n t v.dated)
        v.dated in
    record {
      rising =
          Rises-append 0 n cut e (omega arith) h dated
            (if_both (Rises 0) (leb trace_cap (length t)) (Rises-drop_oldest t v.rising) v.rising);
      dated =
          All-append _ cut (e ∷ []) (All-imp _ _ (λ x k. omega (arith, h, k)) cut dated)
            (omega arith, tt);
      bounded = ground (arith, push_event-suffix t e v.bounded);
    }
