-- ===== src/Services.antt =====
-- The package `services`: the server's operations, in services/touchstone_server.go.
pub mod Env
pub mod Validate
pub mod Utxos
pub mod Process
pub mod Send
pub mod Inventories
pub mod Pages
pub mod PartitionHash
pub mod Chain
pub mod Peers
pub mod Loops
pub mod Sync
pub mod Store
