-- ===== src/Controller.antt =====
-- Package controller (internal/controller): the reconciler of DynamicResources.
pub mod Conflicts
pub mod Vpa
pub mod Defaults
pub mod Bounds
pub mod Targets
pub mod Coupling
pub mod Collection
pub mod Gauges
pub mod Actuation
pub mod Reconcile
pub mod Watches
