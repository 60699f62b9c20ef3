-- ===== src/Scripts.antt =====
-- The scripts of the operators: keys of drones, and the first organization.
pub mod Keys
pub mod Mint
pub mod Revoke
pub mod OneActive
pub mod MintVerify
pub mod Bootstrap
pub mod Commands
pub mod Overlap
