-- ===== src/Tests.antt =====
pub mod Tree
pub mod World
pub mod Server
pub mod Components
pub mod Loading
pub mod Mappings
pub mod Clients
pub mod Wallet
pub mod Srr
pub mod Chars
pub mod Bytes
pub mod Openssl
pub mod Invariants
pub mod Restart
