-- ===== src/Examples.antt =====
-- The theorems at concrete inputs, and runs of the definitions.
mod World
mod Lifecycle
mod Requests
mod Texts
mod Helper
mod Host
mod Execution
mod Whole
mod Waiting
mod Proxy
