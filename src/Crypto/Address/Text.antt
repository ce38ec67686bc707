-- ===== src/Crypto/Address/Text.antt =====
-- What the text of an address keeps.
use npchain.Base.{
  ℕ, zero, suc, ◌*◌, ◌≤◌, ◌≡◌, refl, ap, sym, ◌∙◌, subst, false, some, [], ◌∷◌, ◌++◌, ◌||◌, not,
  length, take, replicate, Bytes, bytes_eq, IsByte, All, ltb, arith, All-take, length-take,
  All-append, length-append,
}
use npchain.Crypto.Address.{prefix, to_bech32, fill, from_bech32, derive_address}
use npchain.Crypto.Hash.{sha3_256, shake_256}
use npchain.Crypto.Hash.Sizes.{length-sha3_256, sha3_256-IsByte, length-shake_256, shake_256-IsByte}
use npchain.Crypto.Hex.{to_hex, from_hex}
use npchain.Crypto.Hex.RoundTrip.{from_hex-to_hex}

take-nil : (n : ℕ) → take {A = ℕ} n [] ≡ []
take-nil zero = refl
take-nil (suc n) = refl

take-to_hex : (n : ℕ) (bs : Bytes) → take (2 * n) (to_hex bs) ≡ to_hex (take n bs)
unfolding to_hex
take-to_hex zero bs = refl
take-to_hex (suc n) [] = take-nil (2 * suc n)
take-to_hex (suc n) (b ∷ bs) =
    let twice : suc (suc (2 * n)) ≡ 2 * suc n = omega arith in
    subst (λ k. take k (to_hex (b ∷ bs)) ≡ to_hex (b ∷ take n bs)) twice (cc (take-to_hex n bs))

take-take : (n : ℕ) (bs : Bytes) → take n (take n bs) ≡ take n bs
take-take zero bs = refl
take-take (suc n) [] = refl
take-take (suc n) (b ∷ bs) = ap (◌∷◌ b) (take-take n bs)

length-to_hex : (bs : Bytes) → length (to_hex bs) ≡ 2 * length bs
unfolding to_hex
length-to_hex [] = refl
length-to_hex (b ∷ bs) = omega (arith, length-to_hex bs)

take_beyond : (n : ℕ) (bs : Bytes) → length bs ≤ n → take n bs ≡ bs
take_beyond zero [] h = refl
take_beyond zero (b ∷ bs) h = absurd (omega arith)
take_beyond (suc n) [] h = refl
take_beyond (suc n) (b ∷ bs) h = ap (◌∷◌ b) (take_beyond n bs (omega arith))

fill_short : (bs : Bytes) → length bs ≡ 20 → fill 25 bs ≡ bs ++ replicate 5 0
fill_short bs len = rw (take_beyond 25 bs (omega arith), len) refl

to_bech32_half : (address : Bytes) → to_bech32 address ≡ prefix ++ to_hex (take 20 address)
unfolding to_bech32
to_bech32_half address = ap (λ t. prefix ++ t) (take-to_hex 20 address)

-- The text that an address of 25 bytes is printed as is read as an address with the same first 20
-- bytes, and zeros for the last byte of the hash and the checksum.
pub from_bech32-to_bech32 :
    (address : Bytes)
    → length address ≡ 25
    → All IsByte address
    → from_bech32 (to_bech32 address) ≡ some (take 20 address ++ replicate 5 0)
unfolding from_bech32
from_bech32-to_bech32 address len bytes =
    let half = take 20 address in
    let half_len : length half ≡ 20 = length-take 20 address (omega arith) in
    let text_len : length (to_hex half) ≡ 40 = length-to_hex half ∙ ap (λ n. 2 * n) half_len in
    let accepted : (ltb (length (prefix ++ to_hex half)) 45 || not (bytes_eq prefix prefix))
        ≡ false =
      unfold bytes_eq in ground (arith, text_len) in
    let back : from_hex (take 40 (to_hex half)) ≡ half =
      ap from_hex (take-to_hex 20 half ∙ ap to_hex (take-take 20 address))
      ∙ from_hex-to_hex half (All-take IsByte 20 address bytes) in
    rw (to_bech32_half address) (
      rw accepted (
        ap some
          (subst (λ x. fill 25 x ≡ half ++ replicate 5 0) (sym back) (fill_short half half_len))))

pub length-derive_address : (public_key : Bytes) → length (derive_address public_key) ≡ 25
unfolding derive_address
length-derive_address public_key =
    let versioned = 0x01 ∷ shake_256 public_key 20 in
    let hash = length-shake_256 public_key 20 in
    let checksum = length-take 4 (sha3_256 versioned) (omega (arith, length-sha3_256 versioned)) in
    omega (arith, length-append versioned (take 4 (sha3_256 versioned)), hash, checksum)

pub derive_address-IsByte : (public_key : Bytes) → All IsByte (derive_address public_key)
unfolding derive_address
derive_address-IsByte public_key =
    let versioned = 0x01 ∷ shake_256 public_key 20 in
    All-append IsByte versioned (take 4 (sha3_256 versioned))
      (omega arith, shake_256-IsByte public_key 20)
      (All-take IsByte 4 (sha3_256 versioned) (sha3_256-IsByte versioned))
