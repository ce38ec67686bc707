-- ===== src/Testnet/Node.antt =====
-- What the node of src/testnet_node.cpp does with blocks: the anti-sybil checks, the callback for a
-- block from a peer, and the blocks that it sends to peers.
pub mod Receive
use npchain.Base.{
  ℕ, zero, suc, ◌+◌, ◌-◌, ◌%◌, ◌^◌, Bool, true, false, not, ◌&&◌, ◌||◌, Option, none, some, List,
  [], ◌∷◌, ◌++◌, length, get_or, take, drop, Bytes, bytes_eq, ltb, leb, ◌==◌, if◌then◌else◌, Floats,
}
use npchain.Crypto.Hash.{Hash256, zero_hash}
use npchain.Testnet.Block.{Block, default_block}
use npchain.Testnet.Chain.{ChainState, is_empty, height, tip_hash, add_block, get_balance}
use npchain.Testnet.Disk.{verified_by}
use npchain.Testnet.Instance.{generate_instance}

abbrev pub max_consecutive_blocks : ℕ
max_consecutive_blocks = 50

-- The loop from the last block down to the first, with the blocks that are left to look at.
unfoldable pub consecutive_loop : ℕ → ℕ → List Block → Bytes → ℕ
consecutive_loop zero consecutive blocks miner_addr = consecutive
consecutive_loop (suc i) consecutive blocks miner_addr =
    let rest = consecutive_loop i (consecutive + 1) blocks miner_addr in
    if leb max_consecutive_blocks consecutive
    then consecutive
    else if bytes_eq (get_or blocks i default_block).miner_address miner_addr
    then rest
    else consecutive

unfoldable pub check_consecutive : List Block → Bytes → Bool
unfolding consecutive_loop
check_consecutive blocks miner_addr =
    if ltb (length blocks) max_consecutive_blocks
    then true
    else ltb (consecutive_loop (length blocks) 0 blocks miner_addr) max_consecutive_blocks

abbrev pub min_stake_to_mine : ℕ
min_stake_to_mine = 0

unfoldable pub check_stake : ChainState → Bytes → Bool
check_stake chain miner_addr =
    if min_stake_to_mine == 0 then true else leb min_stake_to_mine (get_balance chain miner_addr)

module _ (fl : Floats) (fuel : ℕ) where
  abbrev pub witness_valid : Block → Bool
  witness_valid b = verified_by (generate_instance fl fuel b.prev_hash b.difficulty) b.witness

  unfoldable pub receive_genesis : ChainState → Block → ChainState × Bool
  receive_genesis chain b =
      if not (bytes_eq b.prev_hash zero_hash)
      then (chain, false)
      else if not (witness_valid b)
      then (chain, false)
      else add_block chain b

  unfoldable pub receive_next : ChainState → Block → ChainState × Bool
  receive_next chain b =
      if not (b.height == ((height chain + 1) % 2 ^ 64))
      then (chain, false)
      else if not (bytes_eq b.prev_hash (tip_hash chain))
      then (chain, false)
      else if not (check_consecutive chain.blocks b.miner_address)
      then (chain, false)
      else if not (check_stake chain b.miner_address)
      then (chain, false)
      else if not (witness_valid b)
      then (chain, false)
      else add_block chain b

  -- The callback for a block from a peer.
  unfoldable pub receive_block : ChainState → Block → ChainState × Bool
  receive_block chain b =
      if b.height == 0 && is_empty chain.blocks
      then receive_genesis chain b
      else receive_next chain b

-- The callback for a request: 100 blocks at most, from the index on.
unfoldable pub get_chain : ChainState → ℕ → List Block
get_chain chain from = take 100 (drop from chain.blocks)
