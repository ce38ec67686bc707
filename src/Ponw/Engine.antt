-- ===== src/Ponw/Engine.antt =====
-- `ConsensusEngine::validate_block` of src/consensus/ponw_engine.cpp and the records it reads, of
-- include/core/block.hpp and include/core/transaction.hpp. The repository declares the
-- serializations, the hashes and `Transaction::validate` and has no code for them, nor for the
-- verifiable delay function: they are the fields of `Declared`, a parameter.
pub mod Verdict
use npchain.Base.{
  ℕ, ◌+◌, ◌-◌, ◌%◌, ◌^◌, Bool, true, false, not, ◌&&◌, Option, some, List, [], ◌∷◌, map, Bytes, ltb,
  ◌==◌, bytes_eq, if◌then◌else◌, Floats, ◌>>=◌,
}
use npchain.Crypto.Hash.{Hash256, sha3_256}
use npchain.Crypto.Merkle.{merkle_root}
use npchain.Crypto.Signature.{dilithium_verify}
use npchain.Emission.{calculate_reward}
use npchain.Ponw.Finality.{ThresholdSignatureSet}
use npchain.Ponw.Generator.{generate}
use npchain.Ponw.Problem.{ProblemType}
use npchain.Ponw.Witness.{NpInstance, DecodedWitness, verify_witness}

abbrev pub protocol_version : ℕ
protocol_version = 1

abbrev pub max_block_size : ℕ
max_block_size = 4194304

-- 120 seconds in nanoseconds.
abbrev pub max_drift : ℕ
max_drift = 120000000000

pub record ProblemParams : Type 0 where
  pub type : ProblemType
  pub size : ℕ
  pub secondary : ℕ
  pub instance_seed : Hash256
  pub encoded_instance : Bytes

pub record Witness : Type 0 where
  pub type : ProblemType
  pub solution_data : Bytes

pub record VdfProof : Type 0 where
  pub output : Hash256
  pub proof : Bytes
  pub iterations : ℕ

pub record BlockHeader : Type 0 where
  pub version : ℕ
  pub prev_block_hash : Hash256
  pub merkle_root : Hash256
  pub state_root : Hash256
  pub nullifier_root : Hash256
  pub timestamp : ℕ
  pub height : ℕ
  pub difficulty : ℕ
  pub problem : ProblemParams
  pub witness_hash : Hash256
  pub vdf_proof : VdfProof
  pub miner_pubkey : Bytes
  pub miner_signature : Bytes

pub record TxOutput : Type 0 where
  pub stealth_address : Bytes
  pub commitment : Hash256
  pub range_proof : Bytes
  pub ephemeral_pubkey : Bytes
  pub encrypted_amount : Bytes

pub record CoinbaseTx : Type 0 where
  pub height : ℕ
  pub reward : ℕ
  pub total_fees : ℕ
  pub miner_output : TxOutput
  pub extra_data : Bytes

pub record Block (Transaction : Type 0) : Type 0 where
  pub header : BlockHeader
  pub coinbase : CoinbaseTx
  pub transactions : List Transaction
  pub witness : Witness
  pub finality_sigs : ThresholdSignatureSet

pub record Declared : Type 1 where
  pub Transaction : Type 0
  pub tx_hash : Transaction → Hash256
  pub tx_valid : Transaction → Bool
  pub coinbase_hash : CoinbaseTx → Hash256
  pub size_bytes : Block Transaction → ℕ
  pub header_serialize : BlockHeader → Bytes
  pub witness_serialize : Witness → Bytes
  pub decode : Witness → Option DecodedWitness
  pub required_iterations : ℕ → ℕ
  pub vdf_verify : Hash256 → VdfProof → Bool

-- `Block::ValidationResult::Code`
pub data Code : Type 0 where
  ok invalid_header invalid_witness invalid_vdf invalid_merkle_root invalid_transactions : Code
  invalid_coinbase invalid_signature invalid_threshold_sigs block_too_large : Code
  timestamp_drift difficulty_mismatch : Code

-- The text of the error is left out.
pub record ValidationResult : Type 0 where
  pub valid : Bool
  pub code : Code

abbrev pub failure : Code → ValidationResult
failure c = record { valid = false; code = c }

abbrev pub success : ValidationResult
success = record { valid = true; code = Code.ok }

-- `std::abs(static_cast<int64_t>(timestamp) - now) > 120'000'000'000`, where the subtraction wraps
-- and the absolute value of the least int64_t is that number itself.
abbrev pub has_drifted : ℕ → ℕ → Bool
has_drifted timestamp now =
    let drift = (timestamp + (2 ^ 64 - now)) % 2 ^ 64 in
    if ltb drift (2 ^ 63)
    then ltb max_drift drift
    else ltb max_drift (2 ^ 64 - drift) && not (drift == 2 ^ 63)

module _ (decl : Declared) where
  open decl use {
    Transaction, tx_hash, tx_valid, coinbase_hash, size_bytes, header_serialize, witness_serialize,
    decode, required_iterations, vdf_verify,
  }

  unfoldable pub verify_transactions : List Transaction → Bool
  verify_transactions [] = true
  verify_transactions (tx ∷ txs) =
      let rest = verify_transactions txs in if not (tx_valid tx) then false else rest

  unfoldable pub verify_merkle_roots : Block Transaction → Bool
  verify_merkle_roots block =
      bytes_eq (merkle_root (coinbase_hash block.coinbase ∷ map tx_hash block.transactions))
        block.header.merkle_root

  -- The checks of `validate_block` in their order, once the instance is generated. The source
  -- generates it before the check of the witness.
  unfoldable pub validation :
      ℕ → NpInstance → Block Transaction → Hash256 → ℕ → ℕ → ValidationResult
  validation now instance_ block prev_block_hash expected_difficulty expected_height =
      let header = block.header in
      if not (header.version == protocol_version)
      then failure Code.invalid_header
      else if not (bytes_eq header.prev_block_hash prev_block_hash)
      then failure Code.invalid_header
      else if not (header.height == expected_height)
      then failure Code.invalid_header
      else if not (header.difficulty == expected_difficulty)
      then failure Code.difficulty_mismatch
      else if ltb max_block_size (size_bytes block)
      then failure Code.block_too_large
      else if has_drifted header.timestamp now
      then failure Code.timestamp_drift
      else if not (verify_witness instance_ (decode block.witness))
      then failure Code.invalid_witness
      else if ltb header.vdf_proof.iterations (required_iterations expected_difficulty)
      then failure Code.invalid_vdf
      else if not (vdf_verify (sha3_256 (witness_serialize block.witness)) header.vdf_proof)
      then failure Code.invalid_vdf
      else if not (verify_merkle_roots block)
      then failure Code.invalid_merkle_root
      else if not
          (dilithium_verify (header_serialize header) header.miner_signature header.miner_pubkey)
      then failure Code.invalid_signature
      else if not (verify_transactions block.transactions)
      then failure Code.invalid_transactions
      else if ltb (calculate_reward expected_height) block.coinbase.reward
      then failure Code.invalid_coinbase
      else success

  unfoldable pub validate_block :
      Floats → ℕ → ℕ → Block Transaction → Hash256 → ℕ → ℕ → Option ValidationResult
  validate_block fl fuel now block prev_block_hash expected_difficulty expected_height = do
    instance_ ← generate fl fuel prev_block_hash expected_difficulty
    some (validation now instance_ block prev_block_hash expected_difficulty expected_height)
