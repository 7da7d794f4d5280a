-- ===== src/Tests.antt =====
-- Runs of the definitions at concrete inputs, and the theorems applied to them.
mod Batches
mod Indexes
mod Storages
mod Caches
mod Leases
mod Txns
mod Wires
mod Codecs
mod FileLogs
