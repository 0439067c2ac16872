-- ===== src/Peers/Table.antt =====
-- p2p/peer_diversity.go, p2p/peer_connection_policy.go, p2p/peer_lifecycle.go and `storePeer` of
-- p2p/node.go: which connections a node keeps. `net.SplitHostPort` and `net.ParseIP` of Go's net
-- package are a parameter.
use sudharma.Base.{
  Bool, Bytes, List, Option, [], bytes_eq, bytes_keys, codes, drop, false, if◌then◌else◌, is_empty,
  leb, length, ltb, nat_eq, nat_keys, none, some, suc, take, true, ℕ, ◌&&◌, ◌++◌, ◌||◌, ◌∷◌,
}
use sudharma.Crypto.{hex_encode}
use sudharma.Dict.{Dict, erase, insert, lookup}
use sudharma.Pool.Worker.{to_lower, trim_space}
use sudharma.Transactions.Identity.{decimal}

pub record NetPackage : Type 0 where
  -- the host of an address
  pub split_host_port : Bytes → Option Bytes
  -- the 4 bytes of an IPv4 address, or the 16 bytes of another address
  pub parse_ip : Bytes → Option Bytes

abbrev pub max_peers_per_network_group : ℕ
max_peers_per_network_group = 2

abbrev pub max_connected_peers : ℕ
max_connected_peers = 64

-- `strings.Trim(host, "[]")`
unfoldable pub trim_brackets_left : Bytes → Bytes
trim_brackets_left [] = []
trim_brackets_left (c ∷ cs) =
    let rest = trim_brackets_left cs in if nat_eq c b'[' || nat_eq c b']' then rest else c ∷ cs

unfoldable pub trim_brackets_right : Bytes → Bytes
trim_brackets_right [] = []
trim_brackets_right (c ∷ cs) =
    let rest = trim_brackets_right cs in
    if (nat_eq c b'[' || nat_eq c b']') && is_empty rest then [] else c ∷ rest

-- The group of an IP address: the first two bytes, or the first four of a longer one.
unfoldable pub ip_group : Bytes → Bytes
ip_group (a ∷ b ∷ c ∷ d ∷ []) = codes "ipv4:" ++ (decimal a ++ (b'.' ∷ decimal b))
ip_group ip = codes "ipv6:" ++ (hex_encode (take 2 ip) ++ (b':' ∷ hex_encode (take 2 (drop 2 ip))))

module _ (net : NetPackage) where
  -- `PeerNetworkGroup`, where an error is none
  unfoldable pub peer_network_group : Bytes → Option Bytes
  peer_network_group address =
      if is_empty (trim_space address)
      then none
      else elim (net.split_host_port (trim_space address)) [
        | none ↦ none
        | some raw ↦
            let host = trim_space (trim_brackets_right (trim_brackets_left raw)) in
            if is_empty host then none else elim (net.parse_ip host) [
              | none ↦ some (codes "dns:" ++ to_lower host)
              | some ip ↦ some (ip_group ip)
            ]
      ]

  -- The address is in the group.
  unfoldable pub is_in_group : Bytes → Bytes → Bool
  is_in_group group address = elim (peer_network_group address) [
    | none ↦ false
    | some g ↦ bytes_eq g group
  ]

  unfoldable pub count_in_group : Bytes → List Bytes → ℕ
  count_in_group group [] = 0
  count_in_group group (address ∷ addresses) =
      let rest = count_in_group group addresses in
      if is_in_group group address then suc rest else rest

  -- `CanAddPeerFromNetworkGroup`
  unfoldable pub can_add_peer_from_network_group : List Bytes → Bytes → Bool
  can_add_peer_from_network_group existing address = elim (peer_network_group address) [
    | none ↦ false
    | some group ↦ ltb (count_in_group group existing) max_peers_per_network_group
  ]

-- A connection; `connection` tells two connections of one peer apart.
pub record PeerConnection : Type 0 where
  pub node_id : Bytes
  pub listen_address : Bytes
  pub remote_address : Bytes
  pub connection : ℕ

-- `peerNetworkAddress`
unfoldable pub peer_network_address : PeerConnection → Bytes
peer_network_address p = if is_empty p.remote_address then p.listen_address else p.remote_address

-- The addresses of the connections that have one.
unfoldable pub peer_addresses : Dict Bytes PeerConnection → List Bytes
peer_addresses [] = []
peer_addresses ((id, p) ∷ peers) =
    let rest = peer_addresses peers in
    if is_empty (peer_network_address p) then rest else peer_network_address p ∷ rest

module _ (net : NetPackage) where
  -- `canStorePeerLocked`
  unfoldable pub can_store_peer : Dict Bytes PeerConnection → PeerConnection → Bool
  can_store_peer peers candidate =
      if leb max_connected_peers (length peers) || is_empty (peer_network_address candidate)
      then false
      else can_add_peer_from_network_group net (peer_addresses peers)
          (peer_network_address candidate)

  -- `storePeer` of the node `local_id`
  unfoldable pub store_peer :
      Bytes → PeerConnection → Dict Bytes PeerConnection → Bool × Dict Bytes PeerConnection
  store_peer local_id peer peers =
      if is_empty peer.node_id || bytes_eq peer.node_id local_id
      then (false, peers)
      else elim (lookup peer.node_id peers) [
        | some old ↦ (false, peers)
        | none ↦
            if can_store_peer peers peer
            then (true, insert peer.node_id peer peers)
            else (false, peers)
      ]

-- `removePeerConnection`
unfoldable pub remove_peer_connection :
    PeerConnection → Dict Bytes PeerConnection → Dict Bytes PeerConnection
remove_peer_connection peer peers =
    if is_empty peer.node_id then peers else elim (lookup peer.node_id peers) [
      | none ↦ peers
      | some current ↦
          if nat_eq current.connection peer.connection then erase peer.node_id peers else peers
    ]
