-- ===== src/Policy.antt =====
-- policy_engine/: the rules that may block a device's action or change its parameters.
pub mod Data
pub mod DeviceTypes
pub mod Clamp
pub mod Condition
pub mod Evaluator
pub mod Loader
mod Tests
