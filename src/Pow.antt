-- ===== src/Pow.antt =====
-- pow: the proof of work. The legacy proof is a double SHA-256 under a target; version 2 is a
-- programmatic mix over a cache that changes with the epoch. Keccak-512 of golang.org/x/crypto is a
-- parameter, SHA-256 is that of Crypto.
pub mod Words
pub mod Rng
pub mod Permutation
pub mod Cache
pub mod Program
pub mod Reference
pub mod Verifier
pub mod Legacy
