-- ===== src/Node.antt =====
-- p2p: the node that holds a chain, the state of that chain and the pending transactions: blocks and
-- transactions that arrive, reorganizations, synchronization with a peer. Sockets and messages are
-- left out; what a peer answers is an argument.
pub mod Record
pub mod Blocks
pub mod Admission
pub mod Recovery
pub mod Pool
pub mod Consistent
pub mod Runs
pub mod Sync
pub mod Storage
pub mod Restored
pub mod Reach
