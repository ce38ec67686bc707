-- ===== src/Crypto/Keccak.antt =====
-- The Keccak permutation and the sponge of src/crypto/hash.cpp. A lane is a number below 2 ^ 64, the
-- state a list of 25 lanes; the byte view of the state is that of a little-endian machine.
pub mod Laws
use Prim.Native.Nat.{bit_and, bit_or, bit_xor}
use npchain.Base.{
  ℕ, zero, suc, ◌+◌, ◌-◌, ◌*◌, ◌/◌, ◌%◌, ◌^◌, min, Bool, true, false, List, [], ◌∷◌, ◌++◌, Bytes,
  get_or, set, replicate, length, ◌==◌, if◌then◌else◌, for_range, tabulate,
}

abbrev keccak_rc : List ℕ
keccak_rc =
    0x0000000000000001 ∷ 0x0000000000008082 ∷ 0x800000000000808A ∷ 0x8000000080008000
    ∷ 0x000000000000808B ∷ 0x0000000080000001 ∷ 0x8000000080008081 ∷ 0x8000000000008009
    ∷ 0x000000000000008A ∷ 0x0000000000000088 ∷ 0x0000000080008009 ∷ 0x000000008000000A
    ∷ 0x000000008000808B ∷ 0x800000000000008B ∷ 0x8000000000008089 ∷ 0x8000000000008003
    ∷ 0x8000000000008002 ∷ 0x8000000000000080 ∷ 0x000000000000800A ∷ 0x800000008000000A
    ∷ 0x8000000080008081 ∷ 0x8000000000008080 ∷ 0x0000000080000001 ∷ 0x8000000080008008 ∷ []

abbrev keccak_rot : List (List ℕ)
keccak_rot =
    (0 ∷ 1 ∷ 62 ∷ 28 ∷ 27 ∷ [])
    ∷ (36 ∷ 44 ∷ 6 ∷ 55 ∷ 20 ∷ [])
    ∷ (3 ∷ 10 ∷ 43 ∷ 25 ∷ 39 ∷ [])
    ∷ (41 ∷ 45 ∷ 15 ∷ 21 ∷ 8 ∷ [])
    ∷ (18 ∷ 2 ∷ 61 ∷ 56 ∷ 14 ∷ [])
    ∷ []

-- For `n = 0` the source shifts right by 64, which C++ leaves undefined; the part is 0 here.
unfoldable pub rotl64 : ℕ → ℕ → ℕ
rotl64 x n = bit_or (x * 2 ^ n % 2 ^ 64) (x / 2 ^ (64 - n))

abbrev at : List ℕ → ℕ → ℕ
at xs i = get_or xs i 0

theta_c : List ℕ → List ℕ
theta_c s = tabulate 5 0 λ x.
    bit_xor (bit_xor (bit_xor (bit_xor (at s x) (at s (x + 5))) (at s (x + 10))) (at s (x + 15)))
      (at s (x + 20))

theta_d : List ℕ → List ℕ
unfolding rotl64
theta_d c = tabulate 5 0 λ x. bit_xor (at c ((x + 4) % 5)) (rotl64 (at c ((x + 1) % 5)) 1)

rho_pi : List ℕ → List ℕ
unfolding rotl64
rho_pi s =
    for_range 5 0
      (λ x b.
        for_range 5 0
          (λ y b'.
            set b' (y + 5 * ((2 * x + 3 * y) % 5))
              (rotl64 (at s (x + 5 * y)) (at (get_or keccak_rot y []) x)))
          b)
      (replicate 25 0)

chi : List ℕ → List ℕ
chi b = tabulate 25 0 λ i.
    let y = i / 5 in
    let x = i % 5 in
    bit_xor (at b i)
      (bit_and (2 ^ 64 - 1 - at b ((x + 1) % 5 + 5 * y)) (at b ((x + 2) % 5 + 5 * y)))

round : ℕ → List ℕ → List ℕ
unfolding theta_c theta_d rho_pi chi
round r s =
    let d = theta_d (theta_c s) in
    let s₁ = tabulate 25 0 (λ i. bit_xor (at s i) (at d (i % 5))) in
    let s₂ = chi (rho_pi s₁) in set s₂ 0 (bit_xor (at s₂ 0) (at keccak_rc r))

unfoldable pub keccak_f1600 : List ℕ → List ℕ
unfolding round for_range tabulate
keccak_f1600 s = for_range 24 0 round s

pub record KeccakSponge : Type 0 where
  pub state : List ℕ
  pub rate : ℕ
  pub buf_pos : ℕ
  pub suffix : ℕ

-- `sb[i] ^= b` and `sb[i]` on the byte view.
abbrev xor_byte : List ℕ → ℕ → ℕ → List ℕ
xor_byte s i b = set s (i / 8) (bit_xor (at s (i / 8)) (b * 2 ^ (8 * (i % 8))))

abbrev byte_at : List ℕ → ℕ → ℕ
byte_at s i = at s (i / 8) / 2 ^ (8 * (i % 8)) % 256

abbrev pub new_sponge : ℕ → ℕ → KeccakSponge
new_sponge rate suffix = record {
  state = replicate 25 0;
  rate = rate;
  buf_pos = 0;
  suffix = suffix;
}

absorb_byte : KeccakSponge → ℕ → KeccakSponge
absorb_byte k b =
    let s = xor_byte k.state k.buf_pos b in
    if k.buf_pos + 1 == k.rate
    then record k { state = keccak_f1600 s; buf_pos = 0 }
    else record k { state = s; buf_pos = k.buf_pos + 1 }

unfoldable pub absorb : KeccakSponge → Bytes → KeccakSponge
unfolding absorb_byte
absorb k [] = k
absorb k (b ∷ bs) = absorb (absorb_byte k b) bs

unfoldable pub finalize : KeccakSponge → KeccakSponge
finalize k = record k {
  state = keccak_f1600 (xor_byte (xor_byte k.state k.buf_pos k.suffix) (k.rate - 1) 0x80);
  buf_pos = 0;
}

-- `n` bytes of the byte view from `i` on.
copy_bytes : ℕ → List ℕ → ℕ → Bytes
copy_bytes zero s i = []
copy_bytes (suc n) s i = byte_at s i ∷ copy_bytes n s (i + 1)

refill : KeccakSponge → KeccakSponge
refill k = if k.buf_pos == k.rate then record k { state = keccak_f1600 k.state; buf_pos = 0 } else k

-- One round of the loop of `squeeze`. Each copies a byte at least, so `len` rounds are enough.
squeeze_loop : ℕ → KeccakSponge → ℕ → Bytes
unfolding copy_bytes refill
squeeze_loop zero k len = []
squeeze_loop (suc fuel) k len =
    let k' = refill k in
    let chunk = min len (k'.rate - k'.buf_pos) in
    let rest = squeeze_loop fuel (record k' { buf_pos = k'.buf_pos + chunk }) (len - chunk) in
    if len == 0 then [] else copy_bytes chunk k'.state k'.buf_pos ++ rest

-- The sponge is finalized before it is squeezed; no caller squeezes it twice.
unfoldable pub squeeze : KeccakSponge → ℕ → Bytes
unfolding squeeze_loop
squeeze k len = squeeze_loop len (finalize k) len
