-- ===== src/Tests.antt =====
-- Concrete inputs, and the theorems at them.
mod Data
mod Reserve
mod Epoch
mod Storage
mod Bank
mod Coordinator
mod Manager
mod Maps
mod Codes
mod Wire
mod Queries
mod Records
mod Versions
mod Consensus
mod Parts
mod Collector
mod Cluster
mod Buffers
mod Blocks
mod Proxies
