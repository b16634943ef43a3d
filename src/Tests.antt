-- ===== src/Tests.antt =====
-- The theorems of the components at concrete inputs.
mod Floats
mod Limits
mod Rates
mod Frames
mod Pools
mod Requests
mod Services
mod Servers
mod Interleavings
mod Nodes
mod Streams
mod Cleanings
mod Retries
