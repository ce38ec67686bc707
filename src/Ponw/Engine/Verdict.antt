-- ===== src/Ponw/Engine/Verdict.antt =====
-- What each result of `validate_block` says of the block.
use npchain.Base.{
  ℕ, ◌+◌, ◌^◌, ◌<◌, ◌≤◌, ◌≡◌, ◌≢◌, ◌↔◌, inl, inr, refl, sym, Bool, true, false, not, arith, some,
  List, [], ◌∷◌, map, Bytes, All, Floats, Returns, Bool-cases, bytes_eq, bytes_eq_iff, ltb, ◌==◌,
  if◌then◌else◌, ltb→lt,
}
use npchain.Crypto.Hash.{Hash256, sha3_256}
use npchain.Crypto.Merkle.{merkle_root}
use npchain.Crypto.Signature.{dilithium_verify}
use npchain.Emission.{calculate_reward}
use npchain.Ponw.Engine.{
  protocol_version, max_block_size, max_drift, BlockHeader, Block, Declared, Code, ValidationResult,
  failure, success, validation, has_drifted, verify_transactions, verify_merkle_roots,
  validate_block,
}
use npchain.Ponw.Generator.{generate}
use npchain.Ponw.Witness.{NpInstance, verify_witness}

has_drifted_iff :
    (timestamp now : ℕ)
    → timestamp < 2 ^ 63
    → now < 2 ^ 63
    → (has_drifted timestamp now ≡ false)
      ↔ ((timestamp ≤ now + max_drift) × (now ≤ timestamp + max_drift))
has_drifted_iff timestamp now h k = ground arith

not-true : (b : Bool) → not b ≡ true → b ≡ false
not-true true e = sym e
not-true false e = refl

not-false : (b : Bool) → not b ≡ false → b ≡ true
not-false true e = refl
not-false false e = sym e

equal : (a b : ℕ) → not (a == b) ≡ false → a ≡ b
equal a b e = ground arith

not_equal : (a b : ℕ) → not (a == b) ≡ true → a ≢ b
not_equal a b e = ground arith

not_less : (a b : ℕ) → ltb a b ≡ false → b ≤ a
not_less a b e = ground arith

not_less_than : (a b : ℕ) → ltb a b ≡ true → ¬ (b ≤ a)
not_less_than a b e = ground arith

absurd_bool : {b : Bool} → b ≡ true → b ≡ false → ⊥
absurd_bool h k = absurd (cc)

bytes_agree : (a b : Bytes) → not (bytes_eq a b) ≡ false → a ≡ b
bytes_agree a b e = (bytes_eq_iff a b).0 (not-false _ e)

bytes_differ : (a b : Bytes) → not (bytes_eq a b) ≡ true → a ≢ b
bytes_differ a b e eq = absurd_bool ((bytes_eq_iff a b).1 eq) (not-true _ e)

module _ (decl : Declared) where
  open decl use {
    Transaction, tx_hash, tx_valid, coinbase_hash, size_bytes, header_serialize, witness_serialize,
    decode, required_iterations, vdf_verify,
  }

  verify_transactions-All_iff :
      (txs : List Transaction)
      → (verify_transactions decl txs ≡ true) ↔ All (λ tx. tx_valid tx ≡ true) txs
  unfolding verify_transactions
  verify_transactions-All_iff [] = ((λ e. tt), (λ h. refl))
  verify_transactions-All_iff (tx ∷ txs) =
      let (forth, back) = verify_transactions-All_iff txs in
      elim (Bool-cases (tx_valid tx)) [
        | inl e ↦ rw e ((λ h. (refl, forth h)), (λ h. back h.1))
        | inr e ↦ rw e ((λ h. absurd (cc)), (λ h. absurd (cc)))
      ]

  -- The conditions of the block in the order of the checks, each with those before it.
  module _ (now : ℕ) (inst : NpInstance) (block : Block Transaction) (prev : Hash256)
      (d h : ℕ) where
    abbrev header : BlockHeader
    header = block.header

    abbrev pub HasHeader : Type 0
    HasHeader =
        (header.version ≡ protocol_version) × (header.prev_block_hash ≡ prev) × (header.height ≡ h)

    abbrev pub HasDifficulty : Type 0
    HasDifficulty = HasHeader × (header.difficulty ≡ d)

    abbrev pub HasSize : Type 0
    HasSize = HasDifficulty × (size_bytes block ≤ max_block_size)

    abbrev pub IsTimely : Type 0
    IsTimely = HasSize × (header.timestamp ≤ now + max_drift) × (now ≤ header.timestamp + max_drift)

    abbrev pub HasWitness : Type 0
    HasWitness = IsTimely × (verify_witness inst (decode block.witness) ≡ true)

    abbrev pub HasVdf : Type 0
    HasVdf =
        HasWitness
        × (required_iterations d ≤ header.vdf_proof.iterations)
        × (vdf_verify (sha3_256 (witness_serialize block.witness)) header.vdf_proof ≡ true)

    abbrev pub HasRoot : Type 0
    HasRoot =
        HasVdf
        × (merkle_root (coinbase_hash block.coinbase ∷ map tx_hash block.transactions)
            ≡ header.merkle_root)

    abbrev pub IsSigned : Type 0
    IsSigned =
        HasRoot
        × (dilithium_verify (header_serialize header) header.miner_signature header.miner_pubkey
            ≡ true)

    abbrev pub HasTransactions : Type 0
    HasTransactions = IsSigned × All (λ tx. tx_valid tx ≡ true) block.transactions

    abbrev pub IsAccepted : Type 0
    IsAccepted = HasTransactions × (block.coinbase.reward ≤ calculate_reward h)

    -- For a failure: what comes before holds, and the named condition does not.
    abbrev pub Explains : Code → Type 0
    Explains Code.ok = IsAccepted
    Explains Code.invalid_header = ¬ HasHeader
    Explains Code.difficulty_mismatch = HasHeader × (header.difficulty ≢ d)
    Explains Code.block_too_large = HasDifficulty × (max_block_size < size_bytes block)
    Explains Code.timestamp_drift = HasSize × (¬ IsTimely)
    Explains Code.invalid_witness = IsTimely × (verify_witness inst (decode block.witness) ≡ false)
    Explains Code.invalid_vdf = HasWitness × (¬ HasVdf)
    Explains Code.invalid_merkle_root = HasVdf × (¬ HasRoot)
    Explains Code.invalid_signature = HasRoot × (¬ IsSigned)
    Explains Code.invalid_transactions = IsSigned × (¬ HasTransactions)
    Explains Code.invalid_coinbase = HasTransactions × (¬ IsAccepted)
    Explains Code.invalid_threshold_sigs = ⊥

    abbrev pub is_ok : Code → Bool
    is_ok Code.ok = true
    is_ok _ = false

    pub record Verdict (r : ValidationResult) : Type 0 where
      explained : Explains r.code
      flag : r.valid ≡ is_ok r.code

    check :
        (c : Code) (b : Bool) (next : ValidationResult)
        → is_ok c ≡ false
        → (b ≡ true → Explains c)
        → (b ≡ false → Verdict next)
        → Verdict (if b then failure c else next)
    check c true next named f g = record { explained = f refl; flag = sym named }
    check c false next named f g = g refl

    validation-Verdict :
        header.timestamp < 2 ^ 63 → now < 2 ^ 63 → Verdict (validation decl now inst block prev d h)
    unfolding validation verify_merkle_roots
    validation-Verdict small soon =
        check Code.invalid_header _ _ refl (λ e. (λ r. not_equal _ _ e r.0))
          λ e0.
            check Code.invalid_header _ _ refl (λ e. (λ r. bytes_differ _ _ e r.1))
              λ e1.
                check Code.invalid_header _ _ refl (λ e. (λ r. not_equal _ _ e r.2))
                  λ e2.
                    let s0 : HasHeader = (equal _ _ e0, bytes_agree _ _ e1, equal _ _ e2) in
                    check Code.difficulty_mismatch _ _ refl (λ e. (s0, not_equal _ _ e))
                      λ e3.
                        let s1 : HasDifficulty = (s0, equal _ _ e3) in
                        check Code.block_too_large _ _ refl (λ e. (s1, ltb→lt _ _ e))
                          λ e4.
                            let s2 : HasSize = (s1, not_less _ _ e4) in
                            let timely = has_drifted_iff header.timestamp now small soon in
                            check Code.timestamp_drift _ _ refl
                              (λ e. (s2, (λ r. absurd_bool e (timely.1 (r.1, r.2)))))
                              λ e5.
                                let s3 : IsTimely = (s2, (timely.0 e5).0, (timely.0 e5).1) in
                                check Code.invalid_witness _ _ refl (λ e. (s3, not-true _ e))
                                  λ e6.
                                    let s4 : HasWitness = (s3, not-false _ e6) in
                                    check Code.invalid_vdf _ _ refl
                                      (λ e. (s4, (λ r. not_less_than _ _ e r.1)))
                                      λ e7.
                                        check Code.invalid_vdf _ _ refl
                                          (λ e. (s4, (λ r. absurd_bool r.2 (not-true _ e))))
                                          λ e8.
                                            let s5 : HasVdf =
                                              (s4, not_less _ _ e7, not-false _ e8) in
                                            check Code.invalid_merkle_root _ _ refl
                                              (λ e. (s5, (λ r. bytes_differ _ _ e r.1)))
                                              λ e9.
                                                let s6 : HasRoot = (s5, bytes_agree _ _ e9) in
                                                check Code.invalid_signature _ _ refl
                                                  (λ e. (s6, (λ r. absurd_bool r.1 (not-true _ e))))
                                                  λ e10.
                                                    let s7 : IsSigned = (s6, not-false _ e10) in
                                                    let valid =
                                                      verify_transactions-All_iff
                                                        block.transactions in
                                                    check Code.invalid_transactions _ _ refl
                                                      (λ e. (
                                                        s7,
                                                        (λ r.
                                                            absurd_bool (valid.1 r.1)
                                                            (not-true _ e)),
                                                      ))
                                                      λ e11.
                                                        let s8 : HasTransactions =
                                                          (s7, valid.0 (not-false _ e11)) in
                                                        check Code.invalid_coinbase _ success refl
                                                          (λ e.
                                                            (s8, (λ r. not_less_than _ _ e r.1)))
                                                          λ e12. record {
                                                            explained = (s8, not_less _ _ e12);
                                                            flag = refl;
                                                          }

    module _ (fl : Floats) (fuel : ℕ) where
      -- When the generator returns the instance `inst` for the block before and the difficulty, and
      -- the times are below 2 ^ 63: the validation returns. A success means that all its conditions
      -- hold; a failure names one that does not hold, of which all those checked before hold, and
      -- never the finality signatures. The flag is set for a success only.
      pub validate_block-Verdict :
          generate fl fuel prev d ≡ some inst
          → header.timestamp < 2 ^ 63
          → now < 2 ^ 63
          → Returns (validate_block decl fl fuel now block prev d h) Verdict
      unfolding validate_block
      validate_block-Verdict made small soon = rw made (validation-Verdict small soon)
