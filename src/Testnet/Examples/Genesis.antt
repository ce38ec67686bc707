-- ===== src/Testnet/Examples/Genesis.antt =====
-- The theorems about the test network's node at concrete inputs: a chain of one genesis block,
-- whose witness is the planted solution of the instance that the zero hash generates.
use npchain.Base.{
  ◌≡◌, arith, subst, total, refl, Bool, true, false, List, [], ◌∷◌, All, Bytes, fractions,
  log2_floor, from_le, to_le,
}
use npchain.Crypto.Hash.{zero_hash, shake_256}
use npchain.Crypto.Hash.Sizes.{length-sha3_256}
use npchain.Crypto.Rng.{
  new_rng, next_bounded, draw_loop, threshold, next_bool, next_u64, expand_state, with_bytes,
}
use npchain.Ponw.Sat.{verify, check_clause, check_clauses, literal_value, var_index}
use npchain.Ponw.SatGenerator.{planted_solution, draw_clauses, draw_clause}
use npchain.Testnet.Block.{Block, compute_hash}
use npchain.Testnet.Block.Wire.RoundTrip.{FitsFixed}
use npchain.Testnet.Chain.{ChainState, empty_chain, height, hashed, append, add_block, tip_hash}
use npchain.Testnet.Chain.Links.{IsLinked, add_block-IsLinked}
use npchain.Testnet.Chain.Supply.{Balanced, add_block-Balanced}
use npchain.Testnet.Disk.{verified_by, save_to_disk, load_from_disk}
use npchain.Testnet.Disk.Load.{Solves, IsValid, verified_by-Solves}
use npchain.Testnet.Disk.RoundTrip.{Saveable, load_from_disk-save_to_disk}
use npchain.Testnet.Instance.{generate_instance}

abbrev pub planted : List Bool
planted = true ∷ true ∷ true ∷ true ∷ true ∷ true ∷ true ∷ false ∷ true ∷ true ∷ []

abbrev pub miner : Bytes
miner = b'c' ∷ b'e' ∷ b'r' ∷ b't' ∷ []

abbrev pub genesis : Block
genesis = record {
  version = 1;
  height = 0;
  prev_hash = zero_hash;
  merkle_root = zero_hash;
  timestamp = 1_700_000_000;
  difficulty = 1;
  num_variables = 10;
  num_clauses = 42;
  witness = planted;
  witness_hash = zero_hash;
  reward = 47_564_687_975;
  miner_address = miner;
  hash = zero_hash;
}

abbrev pub one_block : ChainState
one_block = append empty_chain (hashed genesis)

pub planted_solves : verified_by (generate_instance fractions 5 zero_hash 1) planted ≡ true
unfolding verify check_clauses check_clause literal_value var_index generate_instance
    planted_solution draw_clauses draw_clause new_rng next_bounded draw_loop threshold next_bool
    next_u64 with_bytes expand_state shake_256 log2_floor from_le to_le
planted_solves = refl

pub genesis-Solves : Solves fractions 5 (hashed genesis)
genesis-Solves = verified_by-Solves fractions 5 (hashed genesis) planted_solves

pub genesis-FitsFixed : FitsFixed (hashed genesis)
unfolding compute_hash
genesis-FitsFixed = record {
  version = omega arith;
  height = omega arith;
  prev_hash = refl;
  merkle_root = refl;
  timestamp = omega arith;
  difficulty = omega arith;
  num_variables = omega arith;
  num_clauses = omega arith;
  witness_hash = refl;
  reward = omega arith;
  hash = length-sha3_256 _;
}

pub one_block-added : add_block empty_chain genesis ≡ (one_block, true)
unfolding add_block height tip_hash
one_block-added = refl

pub one_block-IsLinked : IsLinked one_block
one_block-IsLinked =
    subst (λ r. IsLinked r.0) one_block-added
      (add_block-IsLinked empty_chain genesis tt refl (omega arith) (unfold tip_hash in refl)).1

pub one_block-Saveable : All Saveable one_block.blocks
unfolding append
one_block-Saveable =
    (record { fixed = genesis-FitsFixed; witness = omega arith; miner_address = omega arith }, tt)

pub one_block-reloaded :
    load_from_disk fractions 5 (save_to_disk one_block) empty_chain ≡ (one_block, true)
unfolding append
one_block-reloaded =
    load_from_disk-save_to_disk fractions 5 one_block one_block-Saveable (omega arith)
      one_block-IsLinked (genesis-Solves, tt) refl

pub one_block-Balanced : Balanced one_block
one_block-Balanced =
    subst (λ r. Balanced r.0) one_block-added
      (add_block-Balanced empty_chain genesis (unfold total in refl))

pub one_block-IsValid : IsValid fractions 5 one_block
unfolding append
one_block-IsValid = record {
  linked = one_block-IsLinked;
  solved = (genesis-Solves, tt);
  balanced = one_block-Balanced;
}
