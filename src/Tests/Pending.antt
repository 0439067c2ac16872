-- ===== src/Tests/Pending.antt =====
-- Calls on a mempool.
use sudharma.Base.{List, [], bytes_eq, bytes_keys, nat_keys, none, refl, some, ◌∷◌, ◌≡◌}
use sudharma.Crypto.{all_lower_hex, is_lower_hex, validate_address}
use sudharma.Dict.{erase, get, insert, lookup}
use sudharma.Mempool.Accounting.{IsAccounted}
use sudharma.Mempool.Index.{IsIndexed}
use sudharma.Mempool.Indexed.{perform_all-IsIndexed}
use sudharma.Mempool.Invariant.{
  Operation, add, perform, perform_all, perform_all-IsAccounted, remove,
}
use sudharma.Mempool.Methods.{
  add_transaction, check_admission, check_admission_locked, count, drop_nonce, new_mempool,
  nonces_of, remove_transaction, store_transaction,
}
use sudharma.Tests.Fixtures.{payment}
use sudharma.Transactions.Record.{estimated_serialized_size, validate_resource_bounds}

abbrev calls : List Operation
calls =
    add (some payment) ∷ add (some payment) ∷ remove payment.id ∷ add none ∷ add (some payment) ∷ []

perform_all-IsAccounted_example : IsAccounted (perform_all calls new_mempool)
perform_all-IsAccounted_example = perform_all-IsAccounted calls

one_pending : count (perform_all calls new_mempool) ≡ 1
unfolding count perform_all perform add_transaction check_admission validate_resource_bounds
    validate_address estimated_serialized_size check_admission_locked new_mempool lookup
    remove_transaction nonces_of get store_transaction insert bytes_eq erase all_lower_hex
    is_lower_hex drop_nonce
one_pending = refl

perform_all-IsIndexed_example : IsIndexed (perform_all calls new_mempool)
perform_all-IsIndexed_example = perform_all-IsIndexed calls
