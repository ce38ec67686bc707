-- ===== src/Crypto/Agility.antt =====
-- The algorithm identifiers and tags of include/crypto/agility.hpp. The registry and the migration
-- manager are only declared there.
pub mod RoundTrip
use npchain.Base.{
  ℕ, ◌+◌, ◌*◌, ◌/◌, ◌%◌, ◌^◌, Bool, Option, none, some, List, [], ◌∷◌, length, get_or, Bytes, ltb,
  ◌==◌, if◌then◌else◌,
}

pub record AlgorithmId : Type 0 where
  pub id : ℕ

-- `CryptoCategory`, by its value.
abbrev pub signature_category : ℕ
signature_category = 1

abbrev pub kem_category : ℕ
kem_category = 2

abbrev pub hash_category : ℕ
hash_category = 3

-- `static_cast<CryptoCategory>(id >> 8)`, by its value.
unfoldable pub category : AlgorithmId → ℕ
category a = a.id / 256

unfoldable pub version : AlgorithmId → ℕ
version a = a.id % 256

-- The two parts are bytes, whose bits do not meet.
unfoldable pub make : ℕ → ℕ → AlgorithmId
make cat ver = record { id = (cat * 256 + ver) % 2 ^ 16 }

abbrev pub dilithium_5 : AlgorithmId
dilithium_5 = record { id = 257 }

abbrev pub kyber_1024 : AlgorithmId
kyber_1024 = record { id = 513 }

abbrev pub sha3_256_id : AlgorithmId
sha3_256_id = record { id = 769 }

pub record CryptoTag : Type 0 where
  pub signature_algo : AlgorithmId
  pub kem_algo : AlgorithmId
  pub hash_algo : AlgorithmId

unfoldable pub serialize_tag : CryptoTag → Bytes
serialize_tag t =
    (t.signature_algo.id / 256)
    ∷ (t.signature_algo.id % 256)
    ∷ (t.kem_algo.id / 256)
    ∷ (t.kem_algo.id % 256)
    ∷ (t.hash_algo.id / 256)
    ∷ (t.hash_algo.id % 256)
    ∷ []

abbrev pub id_at : Bytes → ℕ → AlgorithmId
id_at bytes i = record { id = (get_or bytes i 0 * 256 + get_or bytes (i + 1) 0) % 2 ^ 16 }

-- `none` is the failure "CryptoTag too short".
unfoldable pub deserialize_tag : Bytes → Option CryptoTag
deserialize_tag bytes =
    if ltb (length bytes) 6
    then none
    else some (record {
      signature_algo = id_at bytes 0;
      kem_algo = id_at bytes 2;
      hash_algo = id_at bytes 4;
    })

-- With the preferred algorithms that a new registry has.
abbrev pub current_tag : CryptoTag
current_tag = record {
  signature_algo = dilithium_5;
  kem_algo = kyber_1024;
  hash_algo = sha3_256_id;
}
