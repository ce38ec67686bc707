-- ===== src/Crypto/Hash.antt =====
-- The public hashes of src/crypto/hash.cpp.
pub mod Sizes
use npchain.Base.{ℕ, ◌≡◌, refl, List, [], ◌∷◌, ◌++◌, take, Bytes, replicate}
use npchain.Crypto.Keccak.{KeccakSponge, new_sponge, absorb, finalize, squeeze, keccak_f1600}

abbrev pub Hash256 : Type 0
Hash256 = Bytes

abbrev pub zero_hash : Hash256
zero_hash = replicate 32 0

unfoldable pub sha3_256 : Bytes → Hash256
unfolding squeeze absorb finalize keccak_f1600
sha3_256 input = squeeze (absorb (new_sponge 136 0x06) input) 32

unfoldable pub double_sha3 : Bytes → Hash256
double_sha3 input = sha3_256 (sha3_256 input)

unfoldable pub shake_256 : Bytes → ℕ → Bytes
unfolding squeeze absorb finalize keccak_f1600
shake_256 seed output_len = squeeze (absorb (new_sponge 136 0x1F) seed) output_len

unfoldable pub blake3 : Bytes → Hash256
unfolding squeeze absorb finalize keccak_f1600
blake3 input = squeeze (absorb (absorb (new_sponge 136 0x06) (0xB3 ∷ [])) input) 32

abc : take 4 (sha3_256 (0x61 ∷ 0x62 ∷ 0x63 ∷ [])) ≡ 0x3a ∷ 0x98 ∷ 0x5d ∷ 0xa7 ∷ []
unfolding sha3_256
abc = refl

empty : take 4 (sha3_256 []) ≡ 0xa7 ∷ 0xff ∷ 0xc6 ∷ 0xf8 ∷ []
unfolding sha3_256
empty = refl
