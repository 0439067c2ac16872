-- ===== src/Peers/Limits.antt =====
-- p2p/peer_handshake_limits.go and the table of peers that it protects: slots for handshakes that have not
-- ended. A slot is an entry of a buffered channel.
use sudharma.Base.{Bool, List, [], arith, false, if◌then◌else◌, ltb, true, ℕ, ◌+◌, ◌-◌, ◌∷◌, ◌≤◌}

abbrev pub max_concurrent_inbound_handshakes : ℕ
max_concurrent_inbound_handshakes = 32

-- `tryAcquireInboundHandshake`, on the number of slots in use
unfoldable pub try_acquire_inbound_handshake : ℕ → Bool × ℕ
try_acquire_inbound_handshake used =
    if ltb used max_concurrent_inbound_handshakes then (true, used + 1) else (false, used)

-- `releaseInboundHandshake`
unfoldable pub release_inbound_handshake : ℕ → ℕ
release_inbound_handshake used = used - 1

-- The handshakes that are open after a sequence of connections, each of which opens or closes: a
-- refused one is closed at once.
unfoldable pub open_handshakes : List Bool → ℕ → ℕ
open_handshakes [] used = used
open_handshakes (true ∷ events) used = open_handshakes events (try_acquire_inbound_handshake used).1
open_handshakes (false ∷ events) used = open_handshakes events (release_inbound_handshake used)

-- At no time are more than 32 handshakes open.
pub open_handshakes-bound :
    (events : List Bool) (used : ℕ)
    → used ≤ max_concurrent_inbound_handshakes
    → open_handshakes events used ≤ max_concurrent_inbound_handshakes
unfolding open_handshakes try_acquire_inbound_handshake release_inbound_handshake
open_handshakes-bound [] used h = h
open_handshakes-bound (true ∷ events) used h =
    open_handshakes-bound events (try_acquire_inbound_handshake used).1 (ground arith)
open_handshakes-bound (false ∷ events) used h =
    open_handshakes-bound events (release_inbound_handshake used) (omega arith)
