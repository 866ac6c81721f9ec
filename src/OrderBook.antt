-- ===== src/OrderBook.antt =====
-- The order book service (src/order-book) over the tables of orders and trades.
pub mod Entity
pub mod World
pub mod Database
pub mod Broadcast
pub mod Matching
pub mod Service
pub mod Frames
pub mod Executions
pub mod Steps
pub mod Settlement
pub mod Routines
pub mod Untraded
pub mod Success
pub mod Totality
pub mod Guarantees
pub mod Trader
pub mod BookOrder
pub mod Controller
pub mod Gateway
pub mod Answers
mod Examples
