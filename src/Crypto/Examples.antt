-- ===== src/Crypto/Examples.antt =====
-- The theorems about hashes, trees, the generator and hexadecimal text at concrete inputs.
use npchain.Base.{
  ℕ, ◌≡◌, ◌≢◌, arith, refl, true, false, List, [], ◌∷◌, ◌++◌, get_or, replicate, Bytes, some, take,
}
use npchain.Crypto.Hash.{Hash256, zero_hash}
use npchain.Crypto.Address.{to_bech32, from_bech32, derive_address}
use npchain.Crypto.Address.Text.{
  from_bech32-to_bech32, length-derive_address, derive_address-IsByte,
}
use npchain.Crypto.Merkle.{MerkleProof, merkle_root, merkle_proof, merkle_verify}
use npchain.Crypto.Merkle.RoundTrip.{merkle_verify-merkle_proof}
use npchain.Crypto.Merkle.Duplicate.{merkle_root_duplicate}
use npchain.Crypto.Rng.{Rng}

abbrev leaf : ℕ → Hash256
leaf n = replicate 32 n

abbrev leaves : List Hash256
leaves = leaf 1 ∷ leaf 2 ∷ leaf 3 ∷ []

abbrev public_key : Bytes
public_key = replicate 32 1

from_bech32-to_bech32_example :
    from_bech32 (to_bech32 (derive_address public_key))
    ≡ some (take 20 (derive_address public_key) ++ replicate 5 0)
from_bech32-to_bech32_example =
    from_bech32-to_bech32 (derive_address public_key) (length-derive_address public_key)
      (derive_address-IsByte public_key)

merkle_verify-merkle_proof_example :
    merkle_verify (merkle_root leaves) (get_or leaves 2 zero_hash) (merkle_proof leaves 2) ≡ true
merkle_verify-merkle_proof_example = merkle_verify-merkle_proof leaves 2 (omega arith)

abbrev opening : MerkleProof
opening = record { siblings = leaf 2 ∷ []; directions = false ∷ [] }

merkle_root_duplicate_example :
    (((leaf 1 ∷ leaf 2 ∷ []) ++ (leaf 3 ∷ [])) ≢ ((leaf 1 ∷ leaf 2 ∷ []) ++ (leaf 3 ∷ leaf 3 ∷ [])))
    × (merkle_root ((leaf 1 ∷ leaf 2 ∷ []) ++ (leaf 3 ∷ []))
        ≡ merkle_root ((leaf 1 ∷ leaf 2 ∷ []) ++ (leaf 3 ∷ leaf 3 ∷ [])))
merkle_root_duplicate_example =
    merkle_root_duplicate 1 (leaf 1 ∷ leaf 2 ∷ []) (leaf 3) (omega arith) refl

abbrev sevens : Rng
sevens = record { state = replicate 16 7; position = 0; counter = 0 }

abbrev left_bytes : Bytes
left_bytes = 1 ∷ 2 ∷ []

abbrev right_bytes : Bytes
right_bytes = 1 ∷ 3 ∷ []
