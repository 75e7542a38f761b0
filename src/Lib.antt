-- ===== src/Lib.antt =====
-- stc-go: scopes whose effects are undone when they end, and the fibers that an orchestrator
-- loads and unloads as their dependencies come and go. A tree of contexts (context.go) carries
-- local values, realms, interceptors and the closures that undo what was registered; the services
-- that contexts provide, the listeners and the trace stand in one shared state. A fiber
-- (fiber.go) is a component that is loaded into a fresh context once every key that it injects
-- resolves; the orchestrator (orchestrator.go) is the one goroutine that decides, over commands
-- in an inbox. On top of them stand a registry of named values (registry/registry.go), a
-- debounced file watcher (watch/watch.go), a host for components in WASM (wasm/wasm.go) with the
-- kit that its guests are built with (guest/guest.go), and a watcher that reloads such a
-- component when its file changes (hmr/hmr.go).
--
-- Base holds the names that the modules share, with Boolean tests, lists, association lists and
-- sorting by number. Key is key.go. Trace is trace.go with the list of traceLocked. Store holds
-- the records of context.go, fiber.go and orchestrator.go: Context, Fiber, Shared, the commands
-- and the goroutines in flight, and the calls that every operation makes (traceLocked,
-- wakeServiceWatchers, broadcast, send, notifyOrch). Scope is Child, detach, Set, Get,
-- realmForLocked, Isolate, Intercept and Interceptors; Services is Provide, removeProvide,
-- resolve, resolveExternal and Service; Services.Waiting takes the loop of WaitService one turn
-- at a time; Hooks is On and Emit; Unwind is Effect, unwind and Release. Fiber is fiber.go with
-- the dependency checks of orchestrator.go; Fiber.Waiting takes the loops of Ready and Gone apart
-- into turns, between which others run. Orchestrator is handle and settle with what they call;
-- Loop is a round of run, the ends of the goroutines of beginLoad and beginUnload, shutdown and
-- Close. Inbox is send, run and shutdown once more, between the channel of bounded capacity and
-- the lock sendMu. Registry is registry/registry.go; Watch is the loop of watch/watch.go, and
-- Watch.Opening is Watch of watch/watch.go and of hmr/hmr.go up to the start of their loops; Hmr
-- is the loop of hmr/hmr.go. Wasm models wasm/wasm.go: Runtime is the host's own state with Key
-- and the names of instances, Host the functions of the module stc, Lifecycle Apply with its
-- inverse and the probe, Update is Load, Update and Dispose of a handle, Call is Handle.Call.
-- Guest is guest/guest.go, with an instance that exports what the kit exports. Router is
-- examples/plugin-http/router.go, and Site is the plug-ins and the route /admin/banner of
-- examples/plugin-http/main.go. Steps puts the operations of contexts, the rounds of the event
-- loop and the ends of the goroutines together to one step relation with its reachable states,
-- where a context is named once it was made and a fiber once its number was given out. Its
-- parameter `returns` tells what Apply may return as the inverse. The theorems on the lives of
-- fibers, on whoever waits for them and on the loop hold whatever that is; those on what scopes
-- register ask that it is nothing or a function of the component's own, and not the very inverse
-- that Provide has returned. Examples runs the components on small states.
--
-- Contexts and fibers are objects on a heap, a function from numbers; a fiber's number is its id,
-- and a realm is told apart by its id. A Go string is the list of its bytes. Maps are association
-- lists, of which only what lookup gives is read, but for the registry's set of fibers, which is
-- sorted wherever the source sorts it. Package reflect and the type assertion are the parameter
-- Reflect. What a caller's inverse returns is the parameter outcome; callers' functions are told
-- apart by numbers, and their calls are logged in the field deeds. The shared counter seq and the
-- counter of instances in wasm.go are unbounded here, as 2^64 registrations would have to come
-- first; the counter of the registry wraps. The call of a caller's inverse is one step that only
-- notes it. Where both the stop of an instance and its closing fail, the first error stands for
-- the joined one.
--
-- The runtime wazero is a parameter (Wasm.Instance): instances with exported functions and a
-- memory, over a world that they act on. The allocator and the memory of a guest are the
-- parameter Machine of Guest. Pointers and lengths of 32 bits wrap where the source converts. The
-- bytes of a module are told apart by a number. What the orchestrator and the callers do while
-- Load and Update wait for a fiber is the parameter wait. Package os, package filepath and
-- fsnotify are the parameter FileSystem of Watch.Opening; what ReadFile gives at a time is a
-- parameter of Hmr.
--
-- An operation of a context, a round of an event loop and the end of a goroutine are each one
-- step. Walking up the tree takes as many rounds of fuel as the number of the context and one
-- more, as parents are older; unwinding takes as many levels as there are contexts. Settle takes
-- one round more than there are registered fibers: every round but the last takes one of them out
-- of its rest. Printing a number takes one digit more of fuel than the number.
--
-- Not modelled: the locks but for sendMu, and the capacity of the inbox where commands matter
-- (Inbox has it, without them); log output; the registration of the host module in NewRuntime and
-- Runtime.Close, which only call wazero; OnInvoke, whose handler is a parameter of invoke; and
-- the set-up of the example in main of examples/plugin-http/main.go, which is a sequence of calls
-- of the packages above.
pub mod Base
pub mod Key
pub mod Trace
pub mod Store
pub mod Scope
pub mod Services
pub mod Hooks
pub mod Unwind
pub mod Fiber
pub mod Orchestrator
pub mod Loop
pub mod Inbox
pub mod Steps
pub mod Registry
pub mod Watch
pub mod Hmr
pub mod Router
pub mod Site
pub mod Wasm
pub mod Guest
mod Examples
