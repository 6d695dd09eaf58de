-- ===== src/Scope.antt =====
-- core/scope.py: the scope engine. The children `Address`, `Host` and `Engine` hold the model, the
-- others the proofs.
pub mod Address
pub mod Host
pub mod Engine
pub mod Confirm
pub mod Denial
pub mod Rounds
pub mod Grants
