-- ===== src/Data.antt =====
-- The entities, the jobs and the whole state of the application.
pub mod Tenancy
pub mod Accounts
pub mod Messaging
pub mod Automation
pub mod Campaign
