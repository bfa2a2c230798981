-- ===== src/Actuator.antt =====
-- Package actuator (internal/actuator): from recommendations to in-place resizes.
pub mod Lookups
pub mod Policy
pub mod Clamp
pub mod Qos
pub mod Plan
pub mod Oom
pub mod Recreate
pub mod Resizer
pub mod Detect
pub mod Cooldown
