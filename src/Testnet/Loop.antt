-- ===== src/Testnet/Loop.antt =====
-- The mining loop in `main` of src/testnet_node.cpp, beside the other steps that change the node:
-- blocks of peers, jobs and solutions. A lock makes the first two of a turn's parts one step each;
-- the services run after it is released, so that other steps may come in between.
pub mod Sound
use npchain.Base.{
  ℕ, ◌+◌, ◌%◌, ◌^◌, Bool, true, false, not, ◌&&◌, ◌||◌, List, [], ◌∷◌, Bytes, bytes_eq, ltb, ◌==◌,
  if◌then◌else◌, Floats,
}
use npchain.Testnet.Block.{Block}
use npchain.Testnet.Chain.{ChainState, height, tip_hash, add_block}
use npchain.Testnet.Disk.{save_to_disk}
use npchain.Testnet.Governance.{GovernanceState}
use npchain.Testnet.Governance as Governance
use npchain.Testnet.Market.{Market, JobRequest, post_job, submit_solution, process_height}
use npchain.Testnet.Node.{check_consecutive, witness_valid, receive_block}

-- One step: a block of a peer, a block that `mine_block` returned for some earlier chain, the
-- services after such a block, a job, or a solution.
pub data Event (fl : Floats) : Type 0 where
  from_peer : Block → Event fl
  mined : Block → Event fl
  services : Event fl
  posted : JobRequest → Event fl
  solved : ℕ → Bytes → fl.Double → Bytes → Event fl

module _ (fl : Floats) where
  pub record TestNode : Type 0 where
    pub chain : ChainState
    pub governance : GovernanceState
    pub market : Market fl
    pub file : Bytes
    pub blocks_mined : ℕ

  -- Whether the loop goes on, and whether its turn mines or waits for a block of a peer.
  unfoldable pub goes_on : ℕ → TestNode → Bool
  goes_on max_blocks n = not (ltb 0 max_blocks && not (ltb n.blocks_mined max_blocks))

  unfoldable pub may_mine : TestNode → Bytes → Bool
  may_mine n miner_addr = check_consecutive n.chain.blocks miner_addr

  -- Governance, the market, the file, and the count of blocks.
  unfoldable pub run_services : TestNode → TestNode
  run_services n =
      let now = height n.chain in
      let (market, balances) = process_height fl n.market now n.chain.balances in
      let chain = record n.chain { balances = balances } in
      record {
        chain = chain;
        governance = Governance.process_height fl n.governance now n.chain.total_supply;
        market = market;
        file = save_to_disk chain;
        blocks_mined = (n.blocks_mined + 1) % 2 ^ 64;
      }

module _ (fl : Floats) (fuel : ℕ) where
  -- From the block that `mine_block` returned to `add_block`.
  unfoldable pub accept_mined : ChainState → Block → ℕ → ChainState × Bool
  accept_mined chain block blocks_mined =
      if block.height == 0 && ltb 0 blocks_mined
      then (chain, false)
      else if not (witness_valid fl fuel block)
      then (chain, false)
      else if not (block.height == ((height chain + 1) % 2 ^ 64))
          || not (bytes_eq block.prev_hash (tip_hash chain))
      then (chain, false)
      else add_block chain block

  unfoldable pub handle : TestNode fl → Event fl → TestNode fl
  handle n (from_peer b) = record n { chain = (receive_block fl fuel n.chain b).0 }
  handle n (mined b) = record n { chain = (accept_mined n.chain b n.blocks_mined).0 }
  handle n services = run_services fl n
  handle n (posted r) =
      let (market, chain) = post_job fl n.market n.chain r in
      record n { market = market; chain = chain }
  handle n (solved id solver score solution) = record n {
    market = (submit_solution fl n.market id solver score solution (height n.chain)).0;
  }

  unfoldable pub run : TestNode fl → List (Event fl) → TestNode fl
  run n [] = n
  run n (e ∷ es) = run (handle n e) es
