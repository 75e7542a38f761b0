-- ===== src/Wasm.antt =====
-- wasm/wasm.go: WASM modules as components. The runtime wazero and the guests that it runs are
-- parameters; what the host does with them stands in the modules below.
pub mod Runtime
pub mod Instance
pub mod Host
pub mod Call
pub mod Lifecycle
pub mod Update
