-- ===== src/Tests.antt =====
-- The theorems applied to concrete data, and the code of EGAD run on it.
mod Radix
mod MapInstances
mod Epochs
mod Locks
mod Arrays
mod Indexes
mod Staging
mod Tables
mod Queues
mod Markers
mod Recoveries
