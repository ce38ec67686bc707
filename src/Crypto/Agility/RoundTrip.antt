-- ===== src/Crypto/Agility/RoundTrip.antt =====
-- Tags are read back as they are written.
use npchain.Base.{ℕ, ◌+◌, ◌*◌, ◌/◌, ◌%◌, ◌^◌, ◌<◌, ◌≡◌, ap, ◌∙◌, some, arith}
use npchain.Crypto.Agility.{
  AlgorithmId, CryptoTag, category, version, make, serialize_tag, deserialize_tag,
}

-- An identifier gives back the category and the version that it is made of.
pub make-parts :
    (cat ver : ℕ)
    → cat < 256
    → ver < 256
    → (category (make cat ver) ≡ cat) × (version (make cat ver) ≡ ver)
unfolding category version make
make-parts cat ver h k = (omega arith, omega arith)

id_again : (a : AlgorithmId) → a.id < 2 ^ 16 → (a.id / 256 * 256 + a.id % 256) % 2 ^ 16 ≡ a.id
id_again a h = omega arith

-- A tag of 16-bit identifiers is read back.
pub deserialize_tag-serialize_tag :
    (t : CryptoTag)
    → t.signature_algo.id < 2 ^ 16
    → t.kem_algo.id < 2 ^ 16
    → t.hash_algo.id < 2 ^ 16
    → deserialize_tag (serialize_tag t) ≡ some t
unfolding deserialize_tag serialize_tag
deserialize_tag-serialize_tag t h k l = ap some (
    ap
      (λ i. record {
        signature_algo = record { id = i };
        kem_algo = record { id = (t.kem_algo.id / 256 * 256 + t.kem_algo.id % 256) % 2 ^ 16 };
        hash_algo = record { id = (t.hash_algo.id / 256 * 256 + t.hash_algo.id % 256) % 2 ^ 16 };
      })
      (id_again t.signature_algo h)
    ∙ ap
        (λ i. record {
          signature_algo = t.signature_algo;
          kem_algo = record { id = i };
          hash_algo = record { id = (t.hash_algo.id / 256 * 256 + t.hash_algo.id % 256) % 2 ^ 16 };
        })
        (id_again t.kem_algo k)
    ∙ ap
        (λ i. record {
          signature_algo = t.signature_algo;
          kem_algo = t.kem_algo;
          hash_algo = record { id = i };
        })
        (id_again t.hash_algo l))
