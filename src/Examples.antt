-- ===== src/Examples.antt =====
-- The theorems applied to concrete inputs, and tests.
mod Data
mod Votes
mod Tasks
mod Tracking
mod Certificates
mod Epochs
mod Collecting
mod Records
mod Expiring
mod Monitoring
mod Sending
mod Chaining
mod OnChain
mod Querying
mod Answering
mod Restarting
mod Downloading
mod Beating
mod Serving
