-- ===== src/Blocks/Genesis.antt =====
-- blockchain/block.go: the genesis blocks of the two networks.
use sudharma.Base.{
  Bytes, Result, [], bytes_eq, codes, err, if◌then◌else◌, network_not_authorized, ok, signed64,
  unknown_network, ℕ,
}
use sudharma.Blocks.Record.{Block}
use sudharma.Params.{mainnet_launch_authorized, network_mainnet, network_public_testnet}

abbrev pub mainnet_genesis_timestamp : ℕ
mainnet_genesis_timestamp = 0

unfoldable pub genesis_block : ℕ → Bytes → Block
genesis_block timestamp merkle_root = record {
  version = 1;
  height = 0;
  timestamp = signed64 timestamp;
  previous_hash = codes "0";
  merkle_root = merkle_root;
  difficulty = 1;
  nonce = 0;
  miner_address = [];
  transactions = [];
}

-- `NewGenesisBlock`
unfoldable pub new_genesis_block : Block
new_genesis_block = genesis_block 1786924800 (codes "Sudharma Network Genesis Block")

-- `NewMainnetGenesisBlock`
unfoldable pub new_mainnet_genesis_block : Block
new_mainnet_genesis_block =
    genesis_block mainnet_genesis_timestamp (codes "Sudharma Network Mainnet Genesis Block v1")

-- `GenesisFor`
unfoldable pub genesis_for : Bytes → Result Block
genesis_for network =
    if bytes_eq network network_public_testnet
    then ok new_genesis_block
    else if bytes_eq network network_mainnet
    then (if mainnet_launch_authorized
        then ok new_mainnet_genesis_block
        else err network_not_authorized)
    else err unknown_network
