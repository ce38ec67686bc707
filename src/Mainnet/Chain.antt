-- ===== src/Mainnet/Chain.antt =====
-- The block, the instance, the solver, the chain and the miner of src/mainnet_node.cpp. Where its
-- text is that of src/testnet_node.cpp, which the file repeats, the definition is that of the test
-- network; the difficulty and the reward are its own.
use npchain.Base.{
  ℕ, ◌+◌, ◌-◌, ◌*◌, ◌/◌, ◌%◌, ◌^◌, max, Bool, not, Option, List, length, get_or, Bytes, leb, ltb,
  ◌==◌, if◌then◌else◌, Floats, clamp, ◌>>=◌,
}
use npchain.Crypto.Hash.{Hash256}
use npchain.Ponw.Sat.{SatInstance}
use npchain.Ponw.Sat
use npchain.Testnet.Block.{default_block}
use npchain.Testnet.Block
use npchain.Testnet.Chain.{back}
use npchain.Testnet.Chain
use npchain.Testnet.Instance
use npchain.Testnet.Miner.{finish, posed}
use npchain.Testnet.Solver

abbrev pub verify : SatInstance → List Bool → Bool
verify = Sat.verify

abbrev pub generate_instance : Floats → ℕ → Hash256 → ℕ → Option SatInstance
generate_instance = Instance.generate_instance

abbrev pub solve_sat : (ℕ → Bool) → ℕ → SatInstance → Option (List Bool)
solve_sat = Solver.solve_sat

abbrev pub MainBlock : Type 0
MainBlock = Block.Block

abbrev pub serialize : MainBlock → Bytes
serialize = Block.serialize

abbrev pub compute_hash : MainBlock → Hash256
compute_hash = Block.compute_hash

abbrev pub MainChain : Type 0
MainChain = Chain.ChainState

abbrev pub tip_hash : MainChain → Hash256
tip_hash = Chain.tip_hash

abbrev pub height : MainChain → ℕ
height = Chain.height

abbrev pub add_block : MainChain → MainBlock → MainChain × Bool
add_block = Chain.add_block

abbrev pub get_balance : MainChain → Bytes → ℕ
get_balance = Chain.get_balance

unfoldable pub block_reward : ℕ
block_reward = 100_000_000_000 * 1_000_000 / 525_600

module _ (fl : Floats) where
  open fl use {of_uint, literal, mul, div, to_uint}

  -- A window of 144 blocks of 60 seconds, and a factor of at most 2.
  unfoldable pub current_difficulty : MainChain → ℕ
  current_difficulty c =
      let size = length c.blocks in
      let start_idx = if leb 144 size then size - 144 else 0 in
      let span =
        ((back c.blocks).timestamp + 2 ^ 64 - (get_or c.blocks start_idx default_block).timestamp)
        % 2 ^ 64 in
      let time_span = if span == 0 then 1 else span in
      let actual_avg = div (of_uint time_span) (of_uint (size - start_idx)) in
      let ratio =
        clamp fl (div (of_uint 60) actual_avg) (div (literal 10 1) (literal 20 1)) (literal 20 1) in
      let new_diff = to_uint (mul (of_uint (back c.blocks).difficulty) ratio) % 2 ^ 32 in
      if ltb size 2
      then 1
      else if not ((size % 144) == 0)
      then (back c.blocks).difficulty
      else max new_diff 1

  module _ (fuel : ℕ) where
    unfoldable pub candidate : MainChain → Bytes → ℕ → MainBlock
    candidate chain miner_addr now = record default_block {
      version = 1;
      height = (height chain + 1) % 2 ^ 64;
      prev_hash = tip_hash chain;
      difficulty = current_difficulty chain;
      reward = block_reward;
      miner_address = miner_addr;
      timestamp = now;
    }

    unfoldable pub mine_block : MainChain → Bytes → ℕ → (ℕ → Bool) → ℕ → Option MainBlock
    mine_block chain miner_addr now expired seed = do
      let block = candidate chain miner_addr now
      inst ← generate_instance fl fuel block.prev_hash block.difficulty
      finish inst (posed fl fuel block inst) (solve_sat expired seed inst)
