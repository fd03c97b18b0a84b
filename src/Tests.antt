-- ===== src/Tests.antt =====
-- The theorems at concrete inputs, and runs against a service that answers every call.
mod Service
mod Lifecycle
mod Connections
mod Interleavings
mod Requests
mod Texts
mod Demos
mod Servers
mod Helpers
mod Endings
