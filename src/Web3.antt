-- ===== src/Web3.antt =====
-- src/web3/web3.service.ts, and the consumers of src/web3 with what the service finds.
pub mod Service
pub mod Receipts
pub mod Frames
pub mod Jobs
pub mod Examples
