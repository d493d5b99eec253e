-- ===== src/Examples.antt =====
-- The theorems at concrete inputs, and tests of the code they are about.
mod Keys
mod Amounts
mod Trades
mod Encodings
mod Frames
mod Transfers
mod Issues
mod Messages
mod Payloads
mod Flows
mod Sessions
mod Decimals
mod Executions
mod Quotes
mod Policies
mod Handlers
mod Stores
