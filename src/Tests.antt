-- ===== src/Tests.antt =====
-- Runs of the model on concrete data, and the theorems at concrete inputs.
pub mod Fixtures
mod Accounts
mod Transfers
mod Sagas
mod Failures
mod Auth
mod Cash
mod Money
mod Postgres
mod Payloads
mod Applications
mod Onboarding
mod Adjustments
