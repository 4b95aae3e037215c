-- ===== src/Secw/Srr.antt =====
-- The save and restore feature of the wallet, on each level: documents with an encrypted private
-- part, portfolios, the wallet, and the two requests of the server.
pub mod Documents
pub mod Portfolios
pub mod Checks
pub mod Wallet
pub mod Marking
pub mod Requests
