-- ===== src/Examples.antt =====
-- The theorems at concrete inputs, and runs of the code on small ones.
pub mod Sample
mod Queues
mod Files
mod Ranks
mod Transfers
mod Rings
mod Alarms
mod Circle
mod Flows
mod Shares
mod Members
mod Trees
mod Nets
mod Workers
mod Starts
