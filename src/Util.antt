-- ===== src/Util.antt =====
-- The package `util`.
pub mod Sort
pub mod Dfs
pub mod Common
pub mod Hex
pub mod Script
pub mod Http
