-- ===== src/WalletController.antt =====
-- src/wallet/wallet.controller.ts: addresses, deposits, and withdrawals by transfers on the chains.
pub mod World
pub mod Transfers
pub mod Requests
pub mod Frames
pub mod Hashes
pub mod Recording
pub mod Withdrawals
pub mod Debits
pub mod Deposits
pub mod Unregistered
pub mod Addresses
pub mod Examples
pub mod Admin
