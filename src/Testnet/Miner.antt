-- ===== src/Testnet/Miner.antt =====
-- `mine_block` of src/testnet_node.cpp.
pub mod Accepted
use npchain.Base.{
  ℕ, ◌+◌, ◌%◌, ◌^◌, Bool, false, Option, none, some, List, ◌++◌, get_or, Bytes, to_le, tabulate,
  if◌then◌else◌, Floats, require, ◌>>=◌, ◌>>◌,
}
use npchain.Crypto.Hash.{sha3_256}
use npchain.Ponw.Sat.{SatInstance, verify}
use npchain.Testnet.Block.{Block, default_block}
use npchain.Testnet.Chain.{ChainState, height, tip_hash, block_reward, hashed, current_difficulty}
use npchain.Testnet.Instance.{generate_instance}
use npchain.Testnet.Solver.{solve_sat}

-- A byte for each variable.
unfoldable pub witness_bytes : ℕ → List Bool → Bytes
witness_bytes num_variables witness =
    tabulate num_variables 0 λ i. if get_or witness i false then 1 else 0

-- The block with its witness, the two hashes over its data, and its own hash.
unfoldable pub seal : SatInstance → List Bool → Block → Block
seal inst witness block = hashed (record block {
  witness = witness;
  witness_hash = sha3_256 (witness_bytes inst.num_variables witness);
  merkle_root = sha3_256 (to_le 8 block.height ++ to_le 8 block.reward);
})

-- What becomes of the block after the search. A failed `assert` ends the program: `none`.
unfoldable pub finish : SatInstance → Block → Option (List Bool) → Option Block
finish inst block none = some (record block { height = 0 })
finish inst block (some witness) = do require (verify inst witness); some (seal inst witness block)

module _ (fl : Floats) (fuel : ℕ) where
  unfoldable pub candidate : ChainState → Bytes → ℕ → Block
  candidate chain miner_addr now = record default_block {
    version = 1;
    height = (height chain + 1) % 2 ^ 64;
    prev_hash = tip_hash chain;
    difficulty = current_difficulty fl chain;
    reward = block_reward;
    miner_address = miner_addr;
    timestamp = now;
  }

  abbrev pub posed : Block → SatInstance → Block
  posed block inst = record block {
    num_variables = inst.num_variables;
    num_clauses = inst.num_clauses;
  }

  -- `none` also where the instance runs out of fuel.
  unfoldable pub mine_block : ChainState → Bytes → ℕ → (ℕ → Bool) → ℕ → Option Block
  mine_block chain miner_addr now expired seed = do
    let block = candidate chain miner_addr now
    inst ← generate_instance fl fuel block.prev_hash block.difficulty
    finish inst (posed block inst) (solve_sat expired seed inst)
