-- ===== src/Commerce.antt =====
-- server/apps/commerce: the product catalogue, orders, fulfilment and refunds.
pub mod Model
pub mod Load
pub mod Stock
pub mod Checkout
pub mod Reversal
pub mod Lifecycle
pub mod Refund
pub mod Conservation
pub mod Settlement
pub mod Steps
pub mod Graph
pub mod Loaded
pub mod Requests
pub mod Serve
pub mod Outcomes
pub mod Orders
pub mod Endings
mod Tests
mod Examples
mod EndingExamples
