-- ===== src/Ponw/Examples.antt =====
-- The theorems about the problem instances at small instances.
use npchain.Base.{
  Returns-value_or, value_or, Bool, ◌*◌, ◌≡◌, ◌↔◌, arith, refl, true, false, [], ◌∷◌, pos, negsuc,
  Returns, Floats, fractions, replicate, some,
}
use npchain.Crypto.Hash.{zero_hash}
use npchain.Crypto.Signature.{dilithium_verify, zero_check}
use npchain.Ponw.Witness.{NpInstance, DecodedWitness, verify_witness}
use npchain.Ponw.Witness.Solution.{Solution, verify_witness-Solution_iff}
use npchain.Ponw.Finality.{ThresholdSignatureSet, check_signers, check_finality}
use npchain.Crypto.Rng.{threshold}
use npchain.Crypto.Rng.Draws.{Fair, threshold_zero-Fair}
use npchain.Ponw.Problem.{ProblemType, difficulty_to_size}
use npchain.Ponw.Problem.{select_problem_type}
use npchain.Ponw.Generator.{generate}
use npchain.Ponw.Generator.Solvable.{Solvable, CanGenerate, generate-Solvable}
use npchain.Ponw.Engine.{Block, Declared, validate_block}
use npchain.Ponw.Engine.Verdict.{Verdict, validate_block-Verdict}
use npchain.Ponw.Sat.{SatInstance, verify, check_clauses, check_clause, literal_value, var_index}

-- (x1 or not x2) and (x2 or x1)
abbrev formula : SatInstance
formula = record {
  num_variables = 2;
  num_clauses = 2;
  k = 2;
  clauses = (pos 1 ∷ negsuc 1 ∷ []) ∷ (pos 2 ∷ pos 1 ∷ []) ∷ [];
}

formula-verify : verify formula (true ∷ false ∷ []) ≡ true
unfolding verify check_clauses check_clause literal_value var_index
formula-verify = refl

-- One member of the committee, listed fourteen times with one signature for each place.
abbrev lone_signer : ThresholdSignatureSet
lone_signer = record {
  epoch = 1;
  signer_indices = replicate 14 0;
  partial_signatures = replicate 14 (replicate 32 7);
}

lone_signer_final : check_finality zero_hash lone_signer (replicate 32 1 ∷ []) ≡ true
unfolding check_finality check_signers dilithium_verify zero_check
lone_signer_final = refl

verify_witness-Solution_iff_example :
    (verify_witness
        (NpInstance.sat formula)
        (some (DecodedWitness.variable_assignments (true ∷ false ∷ [])))
      ≡ true)
    ↔ Solution
        (NpInstance.sat formula)
        (some (DecodedWitness.variable_assignments (true ∷ false ∷ [])))
verify_witness-Solution_iff_example =
    verify_witness-Solution_iff (NpInstance.sat formula)
      (some (DecodedWitness.variable_assignments (true ∷ false ∷ []))) (omega arith)

-- Doubles whose conversion to an unsigned integer gives 16: 16 variables and clauses.
abbrev sixteens : Floats
sixteens = record fractions { to_uint = λ x. 16 }

sixteens-Fair : Fair 1 (difficulty_to_size sixteens ProblemType.k_sat 1).0
unfolding difficulty_to_size
sixteens-Fair = threshold_zero-Fair 0 16 (omega arith) (unfold threshold in refl)

-- A block with an empty witness for the instance after the zero hash, and code for what the
-- repository only declares.
abbrev toy : Declared
toy = record {
  Transaction = Bool;
  tx_hash = λ tx. zero_hash;
  tx_valid = λ tx. tx;
  coinbase_hash = λ c. zero_hash;
  size_bytes = λ b. 5000;
  header_serialize = λ h. h.prev_block_hash;
  witness_serialize = λ w. w.solution_data;
  decode = λ w. some (DecodedWitness.variable_assignments []);
  required_iterations = λ d. 100 * d;
  vdf_verify = λ h p. true;
}

abbrev empty_witness : Block Bool
empty_witness = record {
  header = record {
    version = 1;
    prev_block_hash = zero_hash;
    merkle_root = zero_hash;
    state_root = zero_hash;
    nullifier_root = zero_hash;
    timestamp = 1700000000000000000;
    height = 1;
    difficulty = 1;
    problem = record {
      type = ProblemType.k_sat;
      size = 16;
      secondary = 16;
      instance_seed = zero_hash;
      encoded_instance = [];
    };
    witness_hash = zero_hash;
    vdf_proof = record { output = zero_hash; proof = []; iterations = 100 };
    miner_pubkey = replicate 2592 1;
    miner_signature = replicate 4627 7;
  };
  coinbase = record {
    height = 1;
    reward = 190258;
    total_fees = 0;
    miner_output = record {
      stealth_address = [];
      commitment = zero_hash;
      range_proof = [];
      ephemeral_pubkey = [];
      encrypted_amount = [];
    };
    extra_data = [];
  };
  transactions = true ∷ [];
  witness = record { type = ProblemType.k_sat; solution_data = [] };
  finality_sigs = lone_signer;
}

zero-CanGenerate : CanGenerate sixteens 0 zero_hash 1 (select_problem_type zero_hash)
unfolding select_problem_type
zero-CanGenerate = (unfold difficulty_to_size in omega arith, sixteens-Fair)

-- The instance that the generator returns.
abbrev generated : NpInstance
generated = value_or (NpInstance.sat formula) (generate sixteens 1 zero_hash 1)

generated_lem : generate sixteens 1 zero_hash 1 ≡ some generated
generated_lem =
    Returns-value_or (NpInstance.sat formula) (generate sixteens 1 zero_hash 1) Solvable
      (generate-Solvable sixteens 0 zero_hash 1 zero-CanGenerate)

validate_block-Verdict_example :
    Returns
      (validate_block toy sixteens 1 1700000000000000005 empty_witness zero_hash 1 1)
      (Verdict toy 1700000000000000005 generated empty_witness zero_hash 1 1)
validate_block-Verdict_example =
    validate_block-Verdict toy 1700000000000000005 generated empty_witness zero_hash 1 1 sixteens 1
      generated_lem (omega arith) (omega arith)
