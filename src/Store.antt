-- ===== src/Store.antt =====
-- The persistence layer: the tables, the writes that the code builds on them, and DynamoDB as an
-- interface with the laws that the code relies on.
pub mod Problem
pub mod Tables
pub mod Dynamo
pub mod Keys
pub mod Sound
pub mod Guarded
pub mod Log
pub mod Lawful
pub mod Amounts
pub mod Memory
