-- ===== src/Com.antt =====
-- The COM side: com.go, types.go and comapi.go.
pub mod HResult
pub mod Abi
pub mod Trace
pub mod Runtime
pub mod Api
pub mod Settings
pub mod Names
pub mod Arrays
pub mod Refs
