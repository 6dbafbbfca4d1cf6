-- ===== src/Service.antt =====
-- internal/service: the use cases over the store.
pub mod Transfer
pub mod Cash
pub mod Adjustment
pub mod Auth
pub mod Review
pub mod Onboarding
