-- ===== src/Dict.antt =====
-- A Go map, as an association list that the first entry of a key answers for: reads, writes,
-- deletion, the number of entries, and the sum of a map of numbers.
use sudharma.Base.{
  Bool-cases, Eq, List, Option, [], arith, bytes_keys, if◌then◌else◌, inl, inr, length, nat_keys,
  none, refl, some, ℕ, ◌+◌, ◌<◌, ◌==◌, ◌∷◌, ◌≡◌, ◌≢◌, ◌≤◌,
}

abbrev pub Dict {ℓ κ} : Type ℓ → Type κ → Type (ℓ ⊔ κ)
Dict K V = List (K × V)

module _ {ℓ κ} {K : Type ℓ} {V : Type κ} ⦃e : Eq K⦄ where
  -- `v, exists := d[k]`
  unfoldable pub lookup : K → Dict K V → Option V
  lookup k [] = none
  lookup k ((j, v) ∷ d) = if j == k then some v else lookup k d

  -- `d[k] = v`
  unfoldable pub insert : K → V → Dict K V → Dict K V
  insert k v [] = (k, v) ∷ []
  insert k v ((j, w) ∷ d) = if j == k then (k, v) ∷ d else (j, w) ∷ insert k v d

  -- `delete(d, k)`
  unfoldable pub erase : K → Dict K V → Dict K V
  erase k [] = []
  erase k ((j, w) ∷ d) = let rest = erase k d in if j == k then rest else (j, w) ∷ rest

  -- A read of a missing key gives the zero value.
  unfoldable pub get : V → K → Dict K V → V
  get z k [] = z
  get z k ((j, v) ∷ d) = if j == k then v else get z k d

  pub lookup-insert :
      (k j : K) (v : V) (d : Dict K V)
      → lookup j (insert k v d) ≡ (if k == j then some v else lookup j d)
  unfolding lookup insert
  lookup-insert k j v [] = refl
  lookup-insert k j v ((i, w) ∷ d) =
      ground (arith, e.beq_iff k j, e.beq_iff i k, e.beq_iff i j, lookup-insert k j v d)

  pub get-insert :
      (z : V) (k j : K) (v : V) (d : Dict K V)
      → get z j (insert k v d) ≡ (if k == j then v else get z j d)
  unfolding get insert
  get-insert z k j v [] = refl
  get-insert z k j v ((i, w) ∷ d) =
      ground (arith, e.beq_iff k j, e.beq_iff i k, e.beq_iff i j, get-insert z k j v d)

  pub lookup-erase :
      (k j : K) (d : Dict K V) → lookup j (erase k d) ≡ (if k == j then none else lookup j d)
  unfolding lookup erase
  lookup-erase k j [] = elim (Bool-cases (k == j)) [ inl p ↦ rw p | inr q ↦ rw q ]
  lookup-erase k j ((i, w) ∷ d) =
      ground (arith, e.beq_iff k j, e.beq_iff i k, e.beq_iff i j, lookup-erase k j d)

  pub get-insert_self : (z : V) (k : K) (v : V) (d : Dict K V) → get z k (insert k v d) ≡ v
  get-insert_self z k v d = rw (get-insert z k k v d, (e.beq_iff k k).1 refl)

  pub get-insert_ne :
      (z : V) (k j : K) (v : V) (d : Dict K V) → k ≢ j → get z j (insert k v d) ≡ get z j d
  get-insert_ne z k j v d ne = ground (arith, get-insert z k j v d, e.beq_iff k j)

-- The sum of all values.
unfoldable pub total {ℓ} : {K : Type ℓ} → Dict K ℕ → ℕ
total [] = 0
total ((_, v) ∷ d) = v + total d

module _ {ℓ} {K : Type ℓ} ⦃e : Eq K⦄ where
  -- A write moves the sum by the change of the one value.
  pub total-insert : (k : K) (v : ℕ) (d : Dict K ℕ) → total (insert k v d) + get 0 k d ≡ total d + v
  unfolding total insert get
  total-insert k v [] = omega arith
  total-insert k v ((j, w) ∷ d) = elim (Bool-cases (j == k)) [
    | inl p ↦ rw p (omega arith)
    | inr q ↦ rw q (omega (arith, total-insert k v d))
  ]

  pub get-le-total : (k : K) (d : Dict K ℕ) → get 0 k d ≤ total d
  unfolding total get
  get-le-total k [] = omega arith
  get-le-total k ((j, w) ∷ d) = elim (Bool-cases (j == k)) [
    | inl p ↦ rw p (omega arith)
    | inr q ↦ rw q (omega (arith, get-le-total k d))
  ]

  -- Writing back the old value of a key that is there restores the map.
  pub insert_restores :
      (k : K) (v : ℕ) (d : Dict K ℕ) → 0 < get 0 k d → insert k (get 0 k d) (insert k v d) ≡ d
  unfolding insert get
  insert_restores k v [] h = absurd (omega arith)
  insert_restores k v ((j, w) ∷ d) h =
      ground (arith, e.beq_iff j k, e.beq_iff k k, insert_restores k v d)

-- Sizes, and reads after a deletion.
module _ {ℓ κ} {K : Type ℓ} {V : Type κ} ⦃e : Eq K⦄ where
  pub length-insert_any : (k : K) (v : V) (d : Dict K V) → length (insert k v d) ≤ length d + 1
  unfolding insert
  length-insert_any k v [] = omega arith
  length-insert_any k v ((j, w) ∷ d) = ground (arith, length-insert_any k v d)

  pub length-erase_any : (k : K) (d : Dict K V) → length (erase k d) ≤ length d
  unfolding erase
  length-erase_any k [] = omega arith
  length-erase_any k ((j, w) ∷ d) = ground (arith, length-erase_any k d)

  pub get-erase :
      (z : V) (k j : K) (d : Dict K V) → get z j (erase k d) ≡ (if k == j then z else get z j d)
  unfolding get erase
  get-erase z k j [] = elim (Bool-cases (k == j)) [ inl p ↦ rw p | inr q ↦ rw q ]
  get-erase z k j ((i, w) ∷ d) =
      ground (arith, e.beq_iff k j, e.beq_iff i k, e.beq_iff i j, get-erase z k j d)

  pub get_absent : (z : V) (k : K) (d : Dict K V) → lookup k d ≡ none → get z k d ≡ z
  unfolding get lookup
  get_absent z k [] h = refl
  get_absent z k ((i, w) ∷ d) h = ground (arith, get_absent z k d)
