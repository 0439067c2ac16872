-- ===== src/Peers/Diverse.antt =====
-- The table of peers of p2p/node.go under connections that come and go.
use sudharma.Base.{
  Bool-cases, Bytes, List, Option-cases, [], arith, bytes_eq, bytes_eq_iff, bytes_keys, false,
  if◌then◌else◌, inl, inr, is_empty, length, nat_eq, nat_keys, none, refl, some, suc, true, ◌<◌,
  ◌||◌, ◌∷◌, ◌≡◌, ◌≤◌,
}
use sudharma.Dict.{
  Dict, erase, insert, length-erase_any, length-insert_any, lookup, lookup-erase, lookup-insert,
}
use sudharma.Peers.Table.{
  NetPackage, PeerConnection, can_add_peer_from_network_group, can_store_peer, count_in_group,
  is_in_group, max_connected_peers, max_peers_per_network_group, peer_addresses,
  peer_network_address, peer_network_group, remove_peer_connection, store_peer,
}
use sudharma.Pool.Worker.{trim_left, trim_right, trim_space}

-- The connections that come and go.
pub data PeerEvent : Type 0 where
  arrived left : PeerConnection → PeerEvent

module _ (net : NetPackage) (local_id : Bytes) where
  unfoldable pub peers_after :
      List PeerEvent → Dict Bytes PeerConnection → Dict Bytes PeerConnection
  peers_after [] peers = peers
  peers_after (arrived p ∷ es) peers = peers_after es (store_peer net local_id p peers).1
  peers_after (left p ∷ es) peers = peers_after es (remove_peer_connection p peers)

  -- Few connections, few of each group, and none to the node itself.
  pub record IsDiverse (peers : Dict Bytes PeerConnection) : Type 0 where
    pub few_peers : length peers ≤ max_connected_peers
    pub few_of_group :
        (group : Bytes)
        → count_in_group net group (peer_addresses peers) ≤ max_peers_per_network_group
    pub not_itself : lookup local_id peers ≡ none

  no_group :
      (group address : Bytes) → is_empty address ≡ true → is_in_group net group address ≡ false
  unfolding is_in_group peer_network_group trim_space trim_left trim_right
  no_group group [] h = refl
  no_group group (c ∷ address) h = absurd (cc h)

  -- One connection more or less in the count of a group.
  count-cons :
      (group id : Bytes) (p : PeerConnection) (peers : Dict Bytes PeerConnection)
      → count_in_group net group (peer_addresses ((id, p) ∷ peers)) ≡ (
          if is_in_group net group (peer_network_address p)
          then suc (count_in_group net group (peer_addresses peers))
          else count_in_group net group (peer_addresses peers))
  unfolding peer_addresses count_in_group
  count-cons group id p peers = ground (arith, no_group group (peer_network_address p))

  count-insert :
      (group id : Bytes) (p : PeerConnection) (peers : Dict Bytes PeerConnection)
      → lookup id peers ≡ none
      → count_in_group net group (peer_addresses (insert id p peers)) ≡ (
          if is_in_group net group (peer_network_address p)
          then suc (count_in_group net group (peer_addresses peers))
          else count_in_group net group (peer_addresses peers))
  unfolding insert lookup
  count-insert group id p [] h = count-cons group id p []
  count-insert group id p ((j, q) ∷ peers) h = ground (
    arith,
    count-cons group j q peers,
    count-cons group j q (insert id p peers),
    count-insert group id p peers,
  )

  count-erase :
      (group id : Bytes) (peers : Dict Bytes PeerConnection)
      → count_in_group net group (peer_addresses (erase id peers))
        ≤ count_in_group net group (peer_addresses peers)
  unfolding erase
  count-erase group id [] = omega arith
  count-erase group id ((j, q) ∷ peers) = ground (
    arith,
    count-cons group j q peers,
    count-cons group j q (erase id peers),
    count-erase group id peers,
  )

  group_known :
      (group address : Bytes)
      → is_in_group net group address ≡ true
      → peer_network_group net address ≡ some group
  unfolding is_in_group
  group_known group address h = elim (Option-cases (peer_network_group net address)) [
    | inl e ↦ absurd (ground (arith, e))
    | inr (g, e) ↦ ground (arith, e, bytes_eq_iff g group)
  ]

  group_room :
      (group : Bytes) (peers : Dict Bytes PeerConnection) (p : PeerConnection)
      → can_store_peer net peers p ≡ true
      → is_in_group net group (peer_network_address p) ≡ true
      → count_in_group net group (peer_addresses peers) < max_peers_per_network_group
  unfolding can_store_peer can_add_peer_from_network_group
  group_room group peers p h k =
      let known = group_known group (peer_network_address p) k in ground (arith, known)

  stored-IsDiverse :
      (p : PeerConnection) (peers : Dict Bytes PeerConnection)
      → bytes_eq p.node_id local_id ≡ false
      → lookup p.node_id peers ≡ none
      → can_store_peer net peers p ≡ true
      → IsDiverse peers
      → IsDiverse (insert p.node_id p peers)
  unfolding can_store_peer
  stored-IsDiverse p peers other new room i = record {
    few_peers = ground (arith, length-insert_any p.node_id p peers);
    few_of_group = λ group. elim (Bool-cases (is_in_group net group (peer_network_address p))) [
      | inl e ↦
          ground
            (arith, e, count-insert group p.node_id p peers new, group_room group peers p room e)
      | inr e ↦ ground (arith, e, count-insert group p.node_id p peers new, i.few_of_group group)
    ];
    not_itself = ground (arith, lookup-insert p.node_id local_id p peers, i.not_itself);
  }

  store_peer-IsDiverse :
      (p : PeerConnection) (peers : Dict Bytes PeerConnection)
      → IsDiverse peers
      → IsDiverse (store_peer net local_id p peers).1
  unfolding store_peer
  store_peer-IsDiverse p peers i =
      elim (Bool-cases (is_empty p.node_id || bytes_eq p.node_id local_id)) [
        | inl e ↦ rw (e, store_peer) i
        | inr e ↦ elim (Option-cases (lookup p.node_id peers)) [
          | inr (old, f) ↦ rw (e, f, store_peer) i
          | inl f ↦ elim (Bool-cases (can_store_peer net peers p)) [
            | inr g ↦ rw (e, f, g, store_peer) i
            | inl g ↦ rw (e, f, g, store_peer) (stored-IsDiverse p peers (ground (arith, e)) f g i)
          ]
        ]
      ]

  erased-IsDiverse :
      (id : Bytes) (peers : Dict Bytes PeerConnection)
      → IsDiverse peers
      → IsDiverse (erase id peers)
  erased-IsDiverse id peers i = record {
    few_peers = omega (arith, length-erase_any id peers, i.few_peers);
    few_of_group = λ group. omega (arith, count-erase group id peers, i.few_of_group group);
    not_itself = ground (arith, lookup-erase id local_id peers, i.not_itself);
  }

  removed-IsDiverse :
      (p : PeerConnection) (peers : Dict Bytes PeerConnection)
      → IsDiverse peers
      → IsDiverse (remove_peer_connection p peers)
  unfolding remove_peer_connection
  removed-IsDiverse p peers i = elim (Bool-cases (is_empty p.node_id)) [
    | inl e ↦ rw (e, remove_peer_connection) i
    | inr e ↦ elim (Option-cases (lookup p.node_id peers)) [
      | inl f ↦ rw (e, f, remove_peer_connection) i
      | inr (q, f) ↦ elim (Bool-cases (nat_eq q.connection p.connection)) [
        | inl g ↦ rw (e, f, g, remove_peer_connection) (erased-IsDiverse p.node_id peers i)
        | inr g ↦ rw (e, f, g, remove_peer_connection) i
      ]
    ]
  ]

  from-IsDiverse :
      (es : List PeerEvent) (peers : Dict Bytes PeerConnection)
      → IsDiverse peers
      → IsDiverse (peers_after es peers)
  unfolding peers_after
  from-IsDiverse [] peers i = i
  from-IsDiverse (arrived p ∷ es) peers i =
      from-IsDiverse es (store_peer net local_id p peers).1 (store_peer-IsDiverse p peers i)
  from-IsDiverse (left p ∷ es) peers i =
      from-IsDiverse es (remove_peer_connection p peers) (removed-IsDiverse p peers i)

  -- Whatever connections come and go, a node keeps at most 64, at most two of each network group, and
  -- none under its own identifier.
  pub peers_after-IsDiverse : (es : List PeerEvent) → IsDiverse (peers_after es [])
  unfolding lookup peer_addresses count_in_group
  peers_after-IsDiverse es =
      from-IsDiverse es []
        (record { few_peers = omega arith; few_of_group = λ group. omega arith; not_itself = refl })
