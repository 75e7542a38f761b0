-- ===== src/Examples/Guests.antt =====
-- Runs of the WASM host with a guest of the kit, of its updates, and of a router.
use stc_go.Base.{
  ℕ, ◌%◌, ◌≡◌, ◌≢◌, refl, ite, true, false, Option, none, some, List, [], ◌∷◌, length, arith,
  if◌then◌else◌, ◌==◌,
}
use stc_go.Base.Sort.{contains}
use stc_go.Key.{Text, Text-discrete}
use stc_go.Store.{Fiber, new, new_fiber, update}
use stc_go.Store
use stc_go.Wasm.Runtime
use stc_go.Wasm.Runtime.{Options, instance_config, start}
use stc_go.Wasm.Runtime.Names.{instance_config-later}
use stc_go.Wasm.Instance.{Instance, instance_of, Wazero}
use stc_go.Base.Assoc.{lookup}
use stc_go.Key.{assignable, new_key}
use stc_go.Store.{is_inactive, entries}
use stc_go.Services.{provide, foreign_provider}
use stc_go.Wasm.Lifecycle
use stc_go.Wasm.Lifecycle.Active.{active_after, apply-active}
use stc_go.Wasm.Host.{word, Host, host_provide, host_get}
use stc_go.Wasm.Host.Values.{host_get-host_provide}
use stc_go.Key.{Reflect}
use stc_go.Wasm.Call
use stc_go.Wasm.Call.{call}
use stc_go.Wasm.Call.Served.{call-computes}
use stc_go.Wasm.Call.Refusals.{Refuses, refusal, call-Refuses}
use stc_go.Wasm.Update.{System, Handle}
use stc_go.Wasm.Update
use stc_go.Wasm.Update.Errors.{chosen, update-src}
use stc_go.Guest.{Machine, Kit, kit_instance, invoke_name}
use stc_go.Guest.Buffers.{IsLawful, computes}
use stc_go.Watch
use stc_go.Watch.{Raw}
use stc_go.Watch.Opening.{FileSystem, got, open_watcher, open_reloader, open_after, open-open_after}
use stc_go.Hmr
use stc_go.Hmr.{ReadResult, content, Signal, raw, tick}
use stc_go.Hmr.Debounce.{all_watched, run-as_watched}
use stc_go.Base.{All}
use stc_go.Hmr.Warrant.{Cause, IsFrom, run-Cause}
use stc_go.Router.{Router, handle, remove, serve}
use stc_go.Router.Routes.{serve-remove}

-- A memory as the list of the writes, the latest first; the next buffer's number is their count.
abbrev Writes : Type 0
Writes = List (ℕ × Text)

abbrev read_from : Writes → ℕ → ℕ → Option Text
read_from [] p n = none
read_from ((q, bs) ∷ w) p n = if q == p then some bs else read_from w p n

abbrev writes_machine : Machine Writes
writes_machine = record {
  make = λ w n. (length w % word, w);
  memory = record { read = read_from; write = λ w p bs. some ((p, bs) ∷ w) };
}

writes_machine-IsLawful : IsLawful writes_machine
writes_machine-IsLawful = record {
  small = λ g n. omega arith;
  holds = λ g bs. (((length g % word), bs) ∷ g, refl, ground arith);
}

-- The handler puts a `>` before its argument.
abbrev quoted : Text → Text
quoted t = 62 ∷ t

abbrev fresh_kit : Kit Writes
fresh_kit = record { machine = (5, 1 ∷ []) ∷ []; call_bufs = 5 ∷ [] }

call-computes_example :
    ((call
        (some (kit_instance writes_machine (some (computes quoted)), some 3))
        fresh_kit
        invoke_name
        (104 ∷ 105 ∷ [])).0
      ≡ Call.ok (62 ∷ 104 ∷ 105 ∷ []))
    × (contains 1
          (call
            (some (kit_instance writes_machine (some (computes quoted)), some 3))
            fresh_kit
            invoke_name
            (104 ∷ 105 ∷ [])).1.call_bufs
        ≡ false)
unfolding contains
call-computes_example =
    call-computes writes_machine writes_machine-IsLawful quoted (some 3) fresh_kit (104 ∷ 105 ∷ [])
      1 (omega arith) (omega arith) refl

-- A guest without exports, in a world that nothing changes.
abbrev mute : Instance ℕ
mute = record {
  exported = λ name. none;
  memory = record { read = λ w p n. none; write = λ w p bs. none };
  close = λ w. (none, w);
}

abbrev engine : Wazero ℕ
engine = record { instantiate = λ ctx w src name. (instance_of mute, w) }

abbrev options : Options
options = record { name = 103 ∷ []; inject = []; provide = (109 ∷ []) ∷ [] }

-- The handle's fiber, number 1, is active with the bytes 4.
abbrev loaded_fiber : Fiber
loaded_fiber =
    record (new_fiber (record { name = 103 ∷ []; inject = []; provide = []; apply = some 4 }) 0) {
      state = Store.active;
    }

abbrev loaded_system : System ℕ
loaded_system = record {
  shared = record new { seq = 1; fibers = update new.fibers 1 loaded_fiber; registry = 1 ∷ [] };
  cell = record { runtime = Runtime.start; world = 0; active = some (mute, some 1) };
}

abbrev handle_at_4 : Handle
handle_at_4 = record { home = 0; opts = options; src = 4; fiber = 1 }

abbrev no_wait : ℕ → System ℕ → System ℕ
no_wait n s = s

update-src_example :
    let (e, h, t) = Update.update 0 engine no_wait handle_at_4 9 loaded_system in
    h.src ≡ chosen e 9 4
update-src_example = update-src 0 engine no_wait handle_at_4 9 loaded_system

-- A new file with other bytes is put in the place of the guest's.
abbrev saved : Raw
saved = record {
  path = 10;
  base = 4;
  bits = record { create = true; write = false; remove = true; rename = false };
}

abbrev reload_run : List (ℕ × Signal)
reload_run = (5, raw saved) ∷ (100, tick) ∷ (300, tick) ∷ []

abbrev file : ℕ → ReadResult
file now = content 9

run-as_watched_example :
    let l =
      Hmr.run 0 engine no_wait file true 4 200 (Hmr.start handle_at_4 loaded_system) reload_run in
    let w = Watch.run (some 4) 200 Watch.start (all_watched reload_run) in
    (l.running ≡ w.running) × (l.deadline ≡ w.deadline) × (length l.reads ≡ length w.fired)
run-as_watched_example =
    run-as_watched 0 engine no_wait file true 4 200 handle_at_4 loaded_system reload_run

run-Cause_example :
    let l =
      Hmr.run 0 engine no_wait file true 4 200 (Hmr.start handle_at_4 loaded_system) reload_run in
    All (Cause 4 200 reload_run) l.reads × IsFrom file 4 l.reads l.handle.src
run-Cause_example = run-Cause 0 engine no_wait file true 4 200 handle_at_4 loaded_system reload_run

-- Two registrations of one pattern, and the inverse of the first.
abbrev one_route : Router ℕ
one_route = record { routes = (47 ∷ [], some 1) ∷ [] }

serve-remove_example :
    let (u, rt) = handle one_route (104 ∷ []) (some 2) in
    let later = (handle rt (104 ∷ []) (some 3)).1 in
    let (u', gone) = remove u later in
    (serve gone (104 ∷ [])
      ≡ ite (Text-discrete (104 ∷ []) (104 ∷ [])) none (serve later (104 ∷ [])))
    × (remove u' later ≡ (u', later))
serve-remove_example =
    serve-remove one_route (handle (handle one_route (104 ∷ []) (some 2)).1 (104 ∷ []) (some 3)).1
      (104 ∷ []) (104 ∷ []) (some 2)

-- A file in the directory 1, where fsnotify refuses a second watcher's directory.
abbrev files : FileSystem
files = record {
  abs = got;
  is_dir = λ p. got false;
  dir = λ p. 1;
  base = λ p. p;
  new_watcher = none;
  add = λ p. some 28;
}

open-open_after_example :
    let (o, m) = open_watcher files 3 0 true 10 in
    let (o', m') = open_reloader files 3 0 10 in (m ≡ open_after o 3) × (m' ≡ open_after o' 3)
open-open_after_example = open-open_after files 3 0 10 true

-- Apply of a component without exports, and its inverse.
apply-active_example :
    let (a, t) = Lifecycle.apply engine loaded_system.cell 9 options 2 in
    (t.active ≡ active_after a 2 (some (mute, some 1)))
    × ((Lifecycle.stop mute 2 t).1.active ≡ none)
apply-active_example = apply-active engine loaded_system.cell 9 options 2 mute

-- A guest whose memory holds a key at 1 and a value at 2, in the fiber of the root.
abbrev guest_host : Host Writes
guest_host = record {
  shared = new;
  runtime = Runtime.start;
  memory = (1, 107 ∷ []) ∷ (2, 118 ∷ 118 ∷ []) ∷ [];
}

-- Every value has the type that is asked for.
abbrev lenient : Reflect
lenient = record { type_of = λ v. some 0; assignable_to = λ a b. true; asserts = λ t v. true }

abbrev provided_host : Host Writes
provided_host = (host_provide writes_machine.memory 0 lenient guest_host (some 0) 1 1 2 2).1

host_accepts :
    host_provide writes_machine.memory 0 lenient guest_host (some 0) 1 1 2 2 ≡ (0, provided_host)
unfolding host_provide provide assignable Runtime.key lookup Runtime.start new_key is_inactive new
    foreign_provider entries
host_accepts = refl

host_get-host_provide_example :
    host_get writes_machine.memory 0 provided_host (some 0) 1 1 3 8
    ≡ (2 % word, record provided_host { memory = (3, 118 ∷ 118 ∷ []) ∷ guest_host.memory })
host_get-host_provide_example =
    host_get-host_provide writes_machine.memory 0 lenient guest_host provided_host 0 1 1 2 2 3 8
      (107 ∷ []) (118 ∷ 118 ∷ []) ((3, 118 ∷ 118 ∷ []) ∷ guest_host.memory) refl refl host_accepts
      (omega arith) refl

-- The first instance of `web` and the second of `web-2`: "web-1" and "web-2-2".
abbrev web : Text
web = 119 ∷ 101 ∷ 98 ∷ []

abbrev web_2 : Text
web_2 = 119 ∷ 101 ∷ 98 ∷ 45 ∷ 50 ∷ []

instance_config-later_example :
    (instance_config start web).0 ≢ (instance_config (instance_config start web).1 web_2).0
instance_config-later_example =
    instance_config-later start (instance_config start web).1 web web_2 (omega arith)

-- An instance without exports.
call-Refuses_example :
    Refuses 0 (refusal (some (mute, some 1)) web web_2) (call (some (mute, some 1)) 0 web web_2)
call-Refuses_example = call-Refuses (some (mute, some 1)) 0 web web_2
