-- ===== src/Ponw/Finality.antt =====
-- `ThresholdSignatureSet` of include/core/block.hpp and `check_finality` of
-- src/consensus/ponw_engine.cpp. The hash of the block, whose code the repository does not have, is
-- an argument.
pub mod Quorum
use npchain.Base.{
  ℕ, ◌+◌, Bool, true, false, not, List, [], ◌∷◌, length, get_or, Bytes, leb, if◌then◌else◌,
}
use npchain.Crypto.Hash.{Hash256}
use npchain.Crypto.Signature.{dilithium_verify}

abbrev pub threshold_quorum : ℕ
threshold_quorum = 14

pub record ThresholdSignatureSet : Type 0 where
  pub epoch : ℕ
  pub signer_indices : List ℕ
  pub partial_signatures : List Bytes

abbrev pub has_quorum : ThresholdSignatureSet → Bool
has_quorum sigs = leb threshold_quorum (length sigs.signer_indices)

-- The signers that are left, the first of them at place `i`.
unfoldable pub check_signers : Hash256 → List Bytes → List Bytes → ℕ → List ℕ → Bool
check_signers block_hash committee signatures i [] = true
check_signers block_hash committee signatures i (idx ∷ rest) =
    let next = check_signers block_hash committee signatures (i + 1) rest in
    if leb (length committee) idx
    then false
    else if not (dilithium_verify block_hash (get_or signatures i []) (get_or committee idx []))
    then false
    else next

unfoldable pub check_finality : Hash256 → ThresholdSignatureSet → List Bytes → Bool
check_finality block_hash sigs committee =
    if not (has_quorum sigs)
    then false
    else check_signers block_hash committee sigs.partial_signatures 0 sigs.signer_indices
