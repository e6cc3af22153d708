-- ===== src/Tests.antt =====
-- Examples: a fixed database, and runs of the operations on it.
mod Store
mod Scripts
mod Batches
mod Checks
mod Answers
mod Connections
mod Requests
mod Peers
mod Databases
mod Documents
mod Miners
mod Records
mod Ledger
mod Synced
