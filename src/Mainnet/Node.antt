-- ===== src/Mainnet/Node.antt =====
-- What `main` of src/mainnet_node.cpp does with the chain: the genesis block, the callbacks for
-- peers, and a turn of the mining loop. The chain is changed under a lock, so each is one step.
pub mod Run
pub mod Genesis
use npchain.Base.{
  ℕ, ◌+◌, ◌%◌, ◌^◌, Bool, true, false, not, ◌&&◌, ◌||◌, Option, none, some, List, [], ◌∷◌, take,
  drop, Bytes, bytes_eq, ltb, ◌==◌, if◌then◌else◌, Floats, ◌>>=◌,
}
use npchain.Crypto.Hash.{zero_hash}
use npchain.Testnet.Block.{default_block}
use npchain.Testnet.Chain.{is_empty}
use npchain.Testnet.Disk.{verified_by}
use npchain.Testnet.Miner.{seal, posed}
use npchain.Mainnet.Chain.{
  MainBlock, MainChain, generate_instance, solve_sat, tip_hash, height, add_block, block_reward,
}

-- One step of the node: a block from a peer, or one from its own miner with the number of blocks
-- that it has mined.
pub data Event : Type 0 where
  from_peer : MainBlock → Event
  from_miner : MainBlock → ℕ → Event

module _ (fl : Floats) (fuel : ℕ) where
  abbrev pub witness_valid : MainBlock → Bool
  witness_valid b = verified_by (generate_instance fl fuel b.prev_hash b.difficulty) b.witness

  abbrev pub genesis_block : Bytes → ℕ → ℕ → MainBlock
  genesis_block miner_addr init_difficulty now = record default_block {
    version = 1;
    height = 0;
    prev_hash = zero_hash;
    timestamp = now;
    difficulty = init_difficulty;
    reward = block_reward;
    miner_address = miner_addr;
  }

  -- The chain of the genesis block; `none` where the node ends because no witness is found.
  unfoldable pub create_genesis : MainChain → Bytes → ℕ → ℕ → (ℕ → Bool) → ℕ → Option MainChain
  create_genesis chain miner_addr init_difficulty now expired seed = do
    let genesis = genesis_block miner_addr init_difficulty now
    inst ← generate_instance fl fuel genesis.prev_hash genesis.difficulty
    witness ← solve_sat expired seed inst
    some (add_block chain (seal inst witness (posed fl fuel genesis inst))).0

  -- The callback for a block from a peer.
  unfoldable pub receive_block : MainChain → MainBlock → MainChain × Bool
  receive_block chain b =
      if b.height == 0 && is_empty chain.blocks
      then (if not (bytes_eq b.prev_hash zero_hash)
          then (chain, false)
          else if not (witness_valid b)
          then (chain, false)
          else add_block chain b)
      else if not (b.height == ((height chain + 1) % 2 ^ 64))
      then (chain, false)
      else if not (bytes_eq b.prev_hash (tip_hash chain))
      then (chain, false)
      else if not (witness_valid b)
      then (chain, false)
      else add_block chain b

  -- The mining loop, from the block that `mine_block` returned on: the chain may have changed since.
  unfoldable pub accept_mined : MainChain → MainBlock → ℕ → MainChain × Bool
  accept_mined chain block blocks_mined =
      if block.height == 0 && ltb 0 blocks_mined
      then (chain, false)
      else if not (witness_valid block)
      then (chain, false)
      else if not (block.height == ((height chain + 1) % 2 ^ 64))
          || not (bytes_eq block.prev_hash (tip_hash chain))
      then (chain, false)
      else add_block chain block

  unfoldable pub handle : MainChain → Event → MainChain
  handle chain (from_peer b) = (receive_block chain b).0
  handle chain (from_miner b blocks_mined) = (accept_mined chain b blocks_mined).0

  unfoldable pub run : MainChain → List Event → MainChain
  run chain [] = chain
  run chain (e ∷ es) = run (handle chain e) es

-- The callback for a request: 100 blocks at most, from the index on.
unfoldable pub get_chain : MainChain → ℕ → List MainBlock
get_chain chain from = take 100 (drop from chain.blocks)
