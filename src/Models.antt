-- ===== src/Models.antt =====
-- The package `models`: the records kept in MongoDB and the repositories over them.
pub mod Collection
pub mod Kept
pub mod Mongo
pub mod Indexs
pub mod TxPoints
pub mod TxInfos
pub mod Partitions
pub mod AddrInfos
