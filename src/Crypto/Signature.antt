-- ===== src/Crypto/Signature.antt =====
-- The signatures of src/crypto/dilithium.cpp, which stand in for the lattice scheme on the test
-- network. A secret key is an argument of what derives from it; its random bytes come from the
-- system.
pub mod Accepts
use Prim.Native.Nat.{bit_or}
use npchain.Base.{
  ℕ, Bool, false, not, [], ◌∷◌, ◌++◌, length, take, Bytes, to_le, ltb, ◌==◌, if◌then◌else◌,
}
use npchain.Crypto.Hash.{Hash256, shake_256}

abbrev pub public_key_size : ℕ
public_key_size = 2592

abbrev pub signature_size : ℕ
signature_size = 4595

-- The public key that `dilithium_keygen` links to a secret key.
unfoldable pub public_key_of : Bytes → Bytes
public_key_of secret_key = shake_256 secret_key public_key_size

unfoldable pub dilithium_sign : Bytes → Bytes → Bytes
dilithium_sign message secret_key = shake_256 (secret_key ++ message) signature_size

-- zero_check |= byte
unfoldable pub zero_check : ℕ → Bytes → ℕ
zero_check acc [] = acc
zero_check acc (b ∷ bs) = zero_check (bit_or acc b) bs

-- The source also computes a hash of the key, the message and half of the signature, which nothing
-- reads.
unfoldable pub dilithium_verify : Bytes → Bytes → Bytes → Bool
dilithium_verify message signature public_key =
    if ltb (length public_key) 32 then false else not (zero_check 0 (take 32 signature) == 0)

unfoldable pub dilithium_derive_child : Bytes → Hash256 → ℕ → Bytes
dilithium_derive_child parent_public_key chain_code index =
    shake_256 (parent_public_key ++ (chain_code ++ to_le 4 index)) public_key_size
