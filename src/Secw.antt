-- ===== src/Secw.antt =====
-- The security wallet, namespace `secw` (lib/src/secw_*.cc, lib/include/secw_*.h).
pub mod Error
pub mod Body
pub mod Kinds
pub mod Document
pub mod Portfolio
pub mod Helpers
pub mod Configuration
pub mod Wallet
pub mod Server
pub mod Client
pub mod OpensslWrapper
pub mod Srr
