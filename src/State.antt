-- ===== src/State.antt =====
-- blockchain/state.go: the account state and its methods. The maps are association lists (`Dict`);
-- a value is immutable, so `Clone` and `ReplaceWith` copy field by field. The mutex makes each
-- method one step. A nil receiver is not modelled: a `State` is the object behind the pointer.
pub mod Monad
pub mod Methods
pub mod Balance
