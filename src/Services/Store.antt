-- ===== src/Services/Store.antt =====
-- The records that the server comes to keep, call by call.
pub mod Found
pub mod Valued
pub mod Steps
pub mod Reached
pub mod Nets
pub mod Held
pub mod Backed
pub mod Supply
