-- ===== src/Custody.antt =====
-- Deposits and withdrawals: the tables, the queue consumers and the queues (src/web3, src/database).
pub mod Entity
pub mod World
pub mod Database
pub mod Consumers
pub mod Queue
pub mod Frames
pub mod Balances
pub mod Dispatch
pub mod Examples
