-- ===== src/Examples.antt =====
-- The laws at concrete inputs: an allocator, a JSON library, and one module of examples per part.
pub mod Setup
mod Queues
mod Buffers
mod KeysUsed
mod Masters
mod Processes
mod Previews
mod Tasks
mod Chains
mod Requests
mod MessagesSent
mod Captures
