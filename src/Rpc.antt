-- ===== src/Rpc.antt =====
-- rpc: the opaque cursors of the explorer's pages.
pub mod Base64
pub mod Decimal
pub mod Cursor
