-- ===== src/Tests.antt =====
-- Runs of the model at concrete inputs, and the theorems applied there.
mod Sample
mod Limits
mod Ledger
mod Holds
mod Service
mod Deposit
mod Batch
mod Billing
mod Erasure
mod Export
mod Access
