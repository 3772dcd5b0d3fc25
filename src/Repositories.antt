-- ===== src/Repositories.antt =====
-- The repositories (src/repositories): the statements that they send, over the tables as lists.
pub mod Idempotency
pub mod Ledger
pub mod Wallet
pub mod Transfer
pub mod User
