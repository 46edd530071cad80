-- ===== src/Tests.antt =====
-- Concrete inputs and runs: a node with two sockets, and the theorems at it.
mod Agents
mod Bytes
mod Relays
mod Relayed
pub mod Data
pub mod Components
pub mod Messages
pub mod Nodes
pub mod Errors
pub mod Packets
pub mod System
pub mod Waiting
pub mod Discovery
pub mod Searching
