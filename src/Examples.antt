-- ===== src/Examples.antt =====
-- The theorems at concrete inputs, and tests that evaluate the code's model.
mod Memory
mod Walks
mod Fabrics
mod Snapshot
mod Streams
mod Nexthops
mod Routes
mod Neighbors
mod Updates
mod Traces
mod Host
mod Triggers
mod Metrics
mod Chassis
mod Together
mod Peers
mod Beside
