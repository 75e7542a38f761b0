-- ===== src/Examples/Tools.antt =====
-- Runs of the registry and of the watcher.
use stc_go.Base.{ℕ, ◌≡◌, ◌≢◌, refl, ite, true, false, none, some, List, [], ◌∷◌, ◌++◌, arith}
use stc_go.Base.{is_some}
use stc_go.Base.{In, ◌↔◌}
use stc_go.Registry.{names, empty}
use stc_go.Registry.Once.{IsStrict, fresh, registers, names-lists}
use stc_go.Key.{Text, Text-discrete}
use stc_go.Registry.{Registry, register, unregister, find}
use stc_go.Registry.Generations.{find-unregister-register, unregister_superseded}
use stc_go.Watch.{Bits, Raw, Loop, passes, classify, run, raw, tick, write_op}
use stc_go.Watch.Debounce.{IsBurst, signals, last_event, burst_fires_once}

abbrev home : Text
home = 104 ∷ []

abbrev away : Text
away = 97 ∷ []

-- A registry that holds 7 under a name, as its third registration.
abbrev kept : Registry ℕ
kept = record { entries = (home, record { v = 7; seq = 3 }) ∷ []; seq = 3 }

find-unregister-register_example :
    find (unregister (register kept home 9).1 home (register kept home 9).0) away
    ≡ ite (Text-discrete home away) none (find kept away)
find-unregister-register_example = find-unregister-register kept home away 9

unregister_superseded_example :
    unregister (register kept home 9).1 home 3 ≡ (register kept home 9).1
unregister_superseded_example = unregister_superseded kept home 9 3 (omega arith) (omega arith)

abbrev written : Bits
written = record { create = false; write = true; remove = false; rename = false }

-- Only its mode was changed.
abbrev chmod : Bits
chmod = record { create = false; write = false; remove = false; rename = false }

abbrev change : Raw
change = record { path = 10; base = 4; bits = written }

abbrev quiet_change : Raw
quiet_change = record { path = 10; base = 4; bits = chmod }

abbrev watching : Loop
watching = record { deadline = none; last = none; running = true; fired = [] }

abbrev ended : Loop
ended = record { deadline = none; last = none; running = false; fired = [] }

abbrev saves : List (ℕ × Raw)
saves = (150, change) ∷ (290, change) ∷ []

change-passes : passes (some 4) change ≡ true
unfolding passes
change-passes = refl

change_writes : classify change.bits ≡ some write_op
unfolding classify
change_writes = refl

writes : classify change.bits ≢ none
writes e = absurd (unfold classify in cc)

saves-IsBurst : IsBurst (some 4) 200 0 saves
saves-IsBurst = (omega arith, change-passes, writes, (omega arith, change-passes, writes, tt))

burst_fires_once_example :
    ((run (some 4) 200 watching ((0, raw change) ∷ signals saves)).fired ≡ [])
    × (run (some 4) 200 watching (((0, raw change) ∷ signals saves) ++ (490, tick) ∷ [])
        ≡ record watching {
          deadline = none;
          last = some (last_event (record { path = 10; op = write_op }) saves);
          fired = last_event (record { path = 10; op = write_op }) saves ∷ [];
        })
burst_fires_once_example =
    burst_fires_once (some 4) 200 0 490 watching change write_op saves refl change-passes
      change_writes saves-IsBurst (omega arith)

chmod_ignored : classify quiet_change.bits ≡ none
unfolding classify
chmod_ignored = refl

-- Two values, registered the later name first.
abbrev pair : Registry ℕ
pair = (register (register empty home 7).1 away 9).1

names-lists_example :
    IsStrict (names pair) × ((a : Text) → In a (names pair) ↔ (is_some (find pair a) ≡ true))
names-lists_example = names-lists pair (registers away 9 (registers home 7 fresh))
