-- ===== src/Crypto/Commitment.antt =====
-- The stand-ins of src/crypto/commitment.cpp for commitments and range proofs. The random bytes of a
-- blinding factor come from the system.
use npchain.Base.{
  ℕ, Bool, true, false, not, List, [], ◌∷◌, ◌++◌, length, Bytes, to_le, leb, if◌then◌else◌, ◌≡◌,
  ◌↔◌, ◌≤◌, refl, All, arith, Bool-cases, inl, inr,
}
use npchain.Crypto.Hash.{Hash256, sha3_256}

unfoldable pub pedersen_commit : ℕ → Bytes → Hash256
pedersen_commit value blinding = sha3_256 (to_le 8 value ++ blinding)

-- The balance is trusted.
unfoldable pub verify_commitment_balance : List Hash256 → List Hash256 → Hash256 → Bool
verify_commitment_balance inputs outputs fee = true

unfoldable pub create_range_proof : Hash256 → Bytes
create_range_proof commitment = let h = sha3_256 commitment in h ++ h

unfoldable pub verify_range_proof : Hash256 → Bytes → Bool
verify_range_proof commitment proof = leb 64 (length proof)

unfoldable pub batch_verify_range_proofs : List (Hash256 × Bytes) → Bool
batch_verify_range_proofs [] = true
batch_verify_range_proofs ((commitment, proof) ∷ rest) =
    let next = batch_verify_range_proofs rest in
    if not (verify_range_proof commitment proof) then false else next

-- A batch is accepted exactly when every proof has 64 bytes at least, whatever it says.
batch_verify_range_proofs-All_iff :
    (proofs : List (Hash256 × Bytes))
    → (batch_verify_range_proofs proofs ≡ true) ↔ All (λ (c, p). 64 ≤ length p) proofs
unfolding batch_verify_range_proofs verify_range_proof
batch_verify_range_proofs-All_iff [] = ((λ e. tt), (λ h. refl))
batch_verify_range_proofs-All_iff ((c, p) ∷ rest) =
    let (forth, back) = batch_verify_range_proofs-All_iff rest in
    elim (Bool-cases (leb 64 (length p))) [
      | inl e ↦ rw e ((λ h. (ground arith, forth h)), (λ h. back h.1))
      | inr e ↦ rw e ((λ h. absurd (cc)), (λ h. absurd (ground arith)))
    ]
