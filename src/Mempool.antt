-- ===== src/Mempool.antt =====
-- blockchain/mempool/mempool.go: the pending transactions, with the accounting of their bytes and the
-- index of the nonces of each sender. The mutex makes each method one step.
pub mod Record
pub mod Methods
pub mod Order
pub mod Listing
pub mod Validate
pub mod Queue
pub mod Accounting
pub mod Index
pub mod Indexed
pub mod Invariant
