-- ===== src/Finance.antt =====
-- The finance module (src/modules/finance).
pub mod Types
pub mod Amount
pub mod Instant
pub mod CardRules
pub mod CardPolicy
pub mod Database
pub mod Policy
pub mod Merchants
pub mod Retirement
pub mod Capabilities
pub mod Runtime
pub mod Kept
pub mod Projections
pub mod Providers
pub mod Operations
pub mod Worker
pub mod Events
pub mod Requests
pub mod Checks
pub mod Authorizations
pub mod Ledger
pub mod Steps
pub mod Samples
