-- ===== src/Spending.antt =====
-- apps/control-plane-api/src/spending: model prices, budgets, reservations and alerts, for one
-- organization (every query binds `organization_id`, and runs under the organization's lock).
-- Identifiers, hashes, periods, providers and models are only compared: they are numbers.
pub mod Price
pub mod Alerts
pub mod Ledger
pub mod Reserve
pub mod Settle
mod Tests
