-- ===== src/Service.antt =====
-- app/seeding/service.py: `SeedingService`, which composes the store and the engines.
pub mod Access
pub mod Worker
pub mod Execute
pub mod Reconcile
