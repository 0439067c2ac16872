-- ===== src/Transactions/Separation.antt =====
-- A signature for one network and identifier does not serve for another.
use sudharma.Base.{All, Bytes, [], arith, codes, ok, refl, sym, ◌++◌, ◌∙◌, ◌∷◌, ◌≡◌, ◌≢◌}
use sudharma.Transactions.Identity.{bar}
use sudharma.Transactions.Signature.{signature_domain_network_bound, signing_message}

abbrev pub HasNoBar : Bytes → Type 0
HasNoBar text = All (λ c. c ≢ bar) text

-- Texts joined by a bar are determined by the whole, where the first ones have no bar.
pub split_at_bar :
    (xs ys xs' ys' : Bytes)
    → HasNoBar xs
    → HasNoBar xs'
    → (xs ++ (bar ∷ ys)) ≡ (xs' ++ (bar ∷ ys'))
    → (xs ≡ xs') × (ys ≡ ys')
split_at_bar [] ys [] ys' p q h = (refl, cc)
split_at_bar [] ys (x ∷ xs') ys' p q h = absurd (q.0 cc)
split_at_bar (x ∷ xs) ys [] ys' p q h = absurd (p.0 cc)
split_at_bar (x ∷ xs) ys (x' ∷ xs') ys' p q h =
    let (e, f) = split_at_bar xs ys xs' ys' p.1 q.1 cc in (cc, f)

append_cancel : (p xs ys : Bytes) → (p ++ xs) ≡ (p ++ ys) → xs ≡ ys
append_cancel [] xs ys h = h
append_cancel (c ∷ p) xs ys h = append_cancel p xs ys cc

bound_message :
    (network id message : Bytes)
    → signing_message signature_domain_network_bound network id ≡ ok message
    → message ≡ (codes "sudharma-tx-v2|" ++ (network ++ (bar ∷ id)))
unfolding signing_message
bound_message network id message h = ground arith

-- Where the network-bound domain gives the same message for two networks without a bar in their names,
-- the networks are the same and so are the identifiers.
pub signing_message_separates :
    (network network' id id' message : Bytes)
    → HasNoBar network
    → HasNoBar network'
    → signing_message signature_domain_network_bound network id ≡ ok message
    → signing_message signature_domain_network_bound network' id' ≡ ok message
    → (network ≡ network') × (id ≡ id')
signing_message_separates network network' id id' message p q h k =
    split_at_bar network id network' id' p q (
      append_cancel (codes "sudharma-tx-v2|") (network ++ (bar ∷ id)) (network' ++ (bar ∷ id'))
        (sym (bound_message network id message h) ∙ bound_message network' id' message k))
