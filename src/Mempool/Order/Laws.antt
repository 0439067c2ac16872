-- ===== src/Mempool/Order/Laws.antt =====
-- Sorting permutes, and a predicate on the entries survives it.
use sudharma.Base.{All, Bool, Bool-cases, List, [], arith, inl, inr, length, refl, suc, ◌∷◌, ◌≡◌}
use sudharma.Mempool.Order.{insert_ordered, sort_slice}
use sudharma.Transactions.Record.{Transaction}

module _ (less : Transaction → Transaction → Bool) where
  pub length-insert_ordered :
      (tx : Transaction) (xs : List Transaction)
      → length (insert_ordered less tx xs) ≡ suc (length xs)
  unfolding insert_ordered
  length-insert_ordered tx [] = refl
  length-insert_ordered tx (x ∷ xs) = ground (arith, length-insert_ordered tx xs)

  pub length-sort_slice : (xs : List Transaction) → length (sort_slice less xs) ≡ length xs
  unfolding sort_slice
  length-sort_slice [] = refl
  length-sort_slice (x ∷ xs) =
      omega (arith, length-insert_ordered x (sort_slice less xs), length-sort_slice xs)

  module _ (Holds : Transaction → Type 0) where
    insert_ordered-All :
        (tx : Transaction) (xs : List Transaction)
        → Holds tx
        → All Holds xs
        → All Holds (insert_ordered less tx xs)
    unfolding insert_ordered
    insert_ordered-All tx [] h a = (h, tt)
    insert_ordered-All tx (x ∷ xs) h (p, q) = elim (Bool-cases (less x tx)) [
      | inl e ↦ rw e (p, insert_ordered-All tx xs h q)
      | inr e ↦ rw e (h, (p, q))
    ]

    pub sort_slice-All : (xs : List Transaction) → All Holds xs → All Holds (sort_slice less xs)
    unfolding sort_slice
    sort_slice-All [] a = tt
    sort_slice-All (x ∷ xs) (p, q) =
        insert_ordered-All x (sort_slice less xs) p (sort_slice-All xs q)
