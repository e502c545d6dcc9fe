-- ===== src/Tests.antt =====
-- Concrete runs and inputs on which the theorems are applied.
mod Runs
mod Lifecycle
mod Excel
mod Codec
mod Stores
mod Sheets
mod Queues
mod Billing
mod Certs
mod Processes
mod Objects
