-- ===== src/Crypto/Hash/Sizes.antt =====
-- The sizes of the digests.
use npchain.Base.{ℕ, ◌≡◌, arith, length, All, IsByte, Bytes, [], ◌∷◌}
use npchain.Crypto.Keccak.{new_sponge, absorb}
use npchain.Crypto.Keccak.Laws.{rate-absorb, length-squeeze-absorb, squeeze-IsByte}
use npchain.Crypto.Hash.{sha3_256, double_sha3, shake_256, blake3}

pub length-sha3_256 : (input : Bytes) → length (sha3_256 input) ≡ 32
unfolding sha3_256
length-sha3_256 input = length-squeeze-absorb (new_sponge 136 0x06) input 32 (omega arith)

pub sha3_256-IsByte : (input : Bytes) → All IsByte (sha3_256 input)
unfolding sha3_256
sha3_256-IsByte input = squeeze-IsByte (absorb (new_sponge 136 0x06) input) 32

pub length-shake_256 : (seed : Bytes) (n : ℕ) → length (shake_256 seed n) ≡ n
unfolding shake_256
length-shake_256 seed n = length-squeeze-absorb (new_sponge 136 0x1F) seed n (omega arith)

pub shake_256-IsByte : (seed : Bytes) (n : ℕ) → All IsByte (shake_256 seed n)
unfolding shake_256
shake_256-IsByte seed n = squeeze-IsByte (absorb (new_sponge 136 0x1F) seed) n

length-blake3 : (input : Bytes) → length (blake3 input) ≡ 32
unfolding blake3
length-blake3 input =
    length-squeeze-absorb (absorb (new_sponge 136 0x06) (0xB3 ∷ [])) input 32
      (omega (arith, rate-absorb (new_sponge 136 0x06) (0xB3 ∷ [])))

-- Every digest of `sha3_256`, `double_sha3` and `blake3` has 32 bytes, and `shake_256` has as many
-- as it was asked for; what `sha3_256` and `shake_256` give is bytes.
pub digest_sizes :
    (input : Bytes) (n : ℕ)
    → (length (sha3_256 input) ≡ 32)
      × (length (double_sha3 input) ≡ 32)
      × (length (blake3 input) ≡ 32)
      × (length (shake_256 input n) ≡ n)
      × All IsByte (sha3_256 input)
      × All IsByte (shake_256 input n)
unfolding double_sha3
digest_sizes input n = (
  length-sha3_256 input,
  length-sha3_256 (sha3_256 input),
  length-blake3 input,
  length-shake_256 input n,
  sha3_256-IsByte input,
  shake_256-IsByte input n,
)
