-- ===== src/Pool.antt =====
-- pool: the mining pool's shares, payouts and jobs. Strings are ASCII where the source trims them or
-- changes their case. The weight of a share among others is computed in floating point by the source
-- and is a parameter.
pub mod Record
pub mod Worker
pub mod Share
pub mod Payout
pub mod Window
pub mod Distribution
pub mod Engine
