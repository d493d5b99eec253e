-- ===== src/Model.antt =====
-- core/model: amounts, values, transactions and inventories.
pub mod Amount
pub mod Types
pub mod Ids
pub mod Inventory
pub mod Sums
pub mod Trade
pub mod Issue
pub mod Transfer
pub mod Flow
