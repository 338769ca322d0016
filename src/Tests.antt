-- ===== src/Tests.antt =====
-- Runs of the model on small inputs, and the theorems at inputs that meet their hypotheses.
pub mod Samples
pub mod Streams
mod Routing
mod Transactions
mod Tables
mod Connections
mod Requests
mod Proxied
mod Consumers
mod Instances
mod Configs
mod Sending
mod Chats
mod Passing
mod Tracking
mod Pings
mod Settings
mod SyncErrors
