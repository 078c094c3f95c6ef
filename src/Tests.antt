-- ===== src/Tests.antt =====
-- The theorems at concrete inputs.
mod Data
mod Messages
mod Sockets
mod Storage
mod Sharing
mod Servers
mod Factory
mod Takeover
mod Customers
mod Cluster
mod Shopping
mod Load
mod Boot
mod Replicas
mod Succession
mod Lagging
mod Running
mod Identification
mod Others
