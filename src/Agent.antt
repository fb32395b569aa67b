-- ===== src/Agent.antt =====
-- Package agent: the runtime's contracts, the validation of its data, and the runner.
pub mod Value
pub mod Requirement
pub mod Message
pub mod Run
pub mod Errors
pub mod Event
pub mod Lifecycle
pub mod Validation
pub mod Context
pub mod Prog
pub mod History
pub mod Interfaces
pub mod Runner
