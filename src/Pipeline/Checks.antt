-- ===== src/Pipeline/Checks.antt =====
-- The ten checks, and the engine that runs them (app.go).
pub mod ResponseIntegrity
pub mod Parse
pub mod IssuerAuthenticity
pub mod DataIntegrity
pub mod Revocation
pub mod DeviceBinding
pub mod UserBinding
pub mod QueryFulfilment
pub mod CombinedChecks
pub mod AssembleForward
