-- ===== src/Transactions.antt =====
-- The transactions package: the record, its fees, its resource bounds, its identifier and its
-- signature domains.
pub mod Fee
pub mod Record
pub mod Identity
pub mod Signature
pub mod Separation
