-- ===== src/Delivery.antt =====
-- The outbound delivery pipeline (src/backend/lib/delivery).
pub mod Circuit
pub mod Jobs
pub mod Semaphore
pub mod Fanouts
pub mod Messages
pub mod Resolutions
pub mod Invalidate
pub mod Deliver
pub mod Reconcile
pub mod Process
pub mod Lifecycle
mod Tests
