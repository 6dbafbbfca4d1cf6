-- ===== src/Domain.antt =====
-- internal/domain: the types that the stores and the services share.
pub mod Event
pub mod Money
pub mod Account
pub mod Error
pub mod Transfer
pub mod Adjustment
pub mod Customer
