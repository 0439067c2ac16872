-- ===== src/Lib.antt =====
-- Sudharma Network: a proof-of-work ledger with accounts. This library models the consensus core
-- of the Go node, the node around it, its proof of work and its pool, and proves them correct.
--
-- Params models params: the networks, the monetary policies, the limits and the emission table.
-- Consensus models consensus: the subsidy of a height, the difficulty rule with the median of the
-- recent block intervals, targets and work. Transactions models transactions: the record, the
-- fees, the identifier, the signing messages, verification and the resource bounds. Crypto holds
-- what is used of wallet/address.go and wallet/wallet.go; SHA-256 and P-256 are a parameter of
-- every definition that uses them. State models blockchain/state.go: a method takes a state and
-- returns a result and the state it leaves, also when it fails. Ledger models
-- blockchain/transaction_processor.go, blockchain/rewards.go and blockchain/block_processor.go: a
-- transaction and a block are applied to a clone, which replaces the state only when everything
-- has succeeded. Blocks models blockchain/block.go and the limits on a block. Chain models the
-- chain of blocks: blockchain/chain.go, its validation, fork choice, finality and reorganization;
-- the clock is an argument of what reads it, a proof verifier a field of the chain. Mempool models
-- blockchain/mempool/mempool.go and blockchain/mempool_validator.go; a Go map is listed in the
-- order of its entries, which stands for any.
--
-- Node models the part of p2p/node.go that blocks and transactions change: its chain, its state
-- and its mempool. Node/Record is p2p/chain_access.go, Node/Blocks p2p/block_handler.go,
-- Node/Admission p2p/transaction_submit.go, Node/Recovery p2p/reorg_mempool.go, Node/Storage the
-- loading half of p2p/mempool_persistence.go, Node/Sync p2p/sync_handler.go, with the answers of a
-- peer as an argument; Node/Reach composes them to a step relation on nodes. Peers models the
-- scores (p2p/peer_scoring.go), the table of connections (p2p/peer_diversity.go,
-- p2p/peer_connection_policy.go, p2p/peer_lifecycle.go) and the handshake slots; Go's net package
-- is a parameter. Pow models pow: Words, Rng, Permutation, Cache, Program and Reference the digest
-- of a version 2 block, with Keccak-512 as a parameter, Verifier the verifier that keeps the cache
-- of an epoch. Pool models pool: Worker, Share, Payout and Engine; the weight of a share, which the
-- source computes in floating point, is an argument. Rpc models the cursors of
-- rpc/explorer_cursor.go with base64 and decimal numbers. Mining models the candidate block of
-- blockchain/block_builder.go and rpc/gpu_mining.go and the search of miner/miner.go. Base holds Go's unsigned and signed integers with their wrap-around, strings as lists of
-- bytes, errors as values; Dict is a Go map. Tests holds concrete runs.
--
-- Conventions: a function of the source has its name in lower case with underscores, a type keeps
-- its name. A uint64 is a natural number; every addition and subtraction of the source that can
-- wrap is `add64`, `sub64` and so on. A theorem asks for uint64 numbers where it needs them. A
-- pointer that the source tests for nil is an `Option`; nil receivers, which cannot occur in a
-- call from the modelled code, are left out. A mutex makes a method one step, so a method is a
-- function of the state it locks.
--
-- Bounds: the loop over the Merkle levels has as much fuel as there are hashes, the loop that
-- prints a decimal number runs at most 20 rounds, the digits of a uint64, and the download of a
-- chain has as many rounds as the height that the peer tells, since each round takes at least one
-- block. Every other loop is recursion on the list or the number that it walks.
--
-- Not modelled: sockets, files, the messages and the discovery of peers, the HTTP server, the
-- Stratum server of the pool, the miners, commands and everything that is not Go.
pub mod Base
pub mod Dict
pub mod Params
pub mod Mining
pub mod Consensus
pub mod Crypto
pub mod Transactions
pub mod State
pub mod Ledger
pub mod Tests
pub mod Blocks
pub mod Chain
pub mod Mempool
pub mod Node
pub mod Pow
pub mod Pool
pub mod Rpc
pub mod Peers
