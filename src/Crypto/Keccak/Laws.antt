-- ===== src/Crypto/Keccak/Laws.antt =====
-- `squeeze` gives as many bytes as it is asked for.
use npchain.Base.{
  ℕ, zero, suc, ◌+◌, ◌-◌, ◌≤◌, ◌<◌, ◌≡◌, refl, ◌∙◌, min, arith, length, length-append, All,
  All-append, IsByte, Bytes, [], ◌∷◌, ◌==◌, false,
}
use npchain.Crypto.Keccak.{
  KeccakSponge, absorb, finalize, squeeze, squeeze_loop, absorb_byte, copy_bytes, refill,
}

length-copy_bytes : (n : ℕ) (s : Bytes) (i : ℕ) → length (copy_bytes n s i) ≡ n
unfolding copy_bytes
length-copy_bytes zero s i = refl
length-copy_bytes (suc n) s i = omega (arith, length-copy_bytes n s (i + 1))

copy_bytes-IsByte : (n : ℕ) (s : Bytes) (i : ℕ) → All IsByte (copy_bytes n s i)
unfolding copy_bytes
copy_bytes-IsByte zero s i = tt
copy_bytes-IsByte (suc n) s i = (omega arith, copy_bytes-IsByte n s (i + 1))

-- The position stays within the rate, and the rate is not 0.
abbrev pub IsReady : KeccakSponge → Type 0
IsReady k = (0 < k.rate) × (k.buf_pos ≤ k.rate)

refill_room : (k : KeccakSponge) → IsReady k → ((refill k).buf_pos < (refill k).rate)
unfolding refill
refill_room k h = ground arith

length-squeeze_loop :
    (fuel : ℕ) (k : KeccakSponge) (len : ℕ)
    → IsReady k
    → len ≤ fuel
    → length (squeeze_loop fuel k len) ≡ len
unfolding squeeze_loop
length-squeeze_loop zero k len h f = omega arith
length-squeeze_loop (suc fuel) k zero h f = refl
length-squeeze_loop (suc fuel) k (suc m) h f =
    let k' = refill k in
    let chunk = min (suc m) (k'.rate - k'.buf_pos) in
    let out = squeeze_loop fuel (record k' { buf_pos = k'.buf_pos + chunk }) (suc m - chunk) in
    ground (
      arith,
      refill_room k h,
      length-append (copy_bytes chunk k'.state k'.buf_pos) out,
      length-copy_bytes chunk k'.state k'.buf_pos,
      length-squeeze_loop fuel (record k' { buf_pos = k'.buf_pos + chunk }) (suc m - chunk)
          (omega (arith, refill_room k h)) (omega (arith, refill_room k h)),
    )

squeeze_loop-IsByte : (fuel : ℕ) (k : KeccakSponge) (len : ℕ) → All IsByte (squeeze_loop fuel k len)
unfolding squeeze_loop
squeeze_loop-IsByte zero k len = tt
squeeze_loop-IsByte (suc fuel) k zero = tt
squeeze_loop-IsByte (suc fuel) k (suc m) =
    let k' = refill k in
    let chunk = min (suc m) (k'.rate - k'.buf_pos) in
    let k'' : KeccakSponge = record k' { buf_pos = k'.buf_pos + chunk } in
    let going : (suc m == 0) ≡ false = ground arith in
    rw going (
      All-append IsByte (copy_bytes chunk k'.state k'.buf_pos)
        (squeeze_loop fuel k'' (suc m - chunk)) (copy_bytes-IsByte chunk k'.state k'.buf_pos)
        (squeeze_loop-IsByte fuel k'' (suc m - chunk)))

rate-absorb_byte : (k : KeccakSponge) (b : ℕ) → (absorb_byte k b).rate ≡ k.rate
unfolding absorb_byte
rate-absorb_byte k b = ground arith

pub rate-absorb : (k : KeccakSponge) (bs : Bytes) → (absorb k bs).rate ≡ k.rate
unfolding absorb
rate-absorb k [] = refl
rate-absorb k (b ∷ bs) = rate-absorb (absorb_byte k b) bs ∙ rate-absorb_byte k b

pub length-squeeze-absorb :
    (k : KeccakSponge) (input : Bytes) (len : ℕ)
    → 0 < k.rate
    → length (squeeze (absorb k input) len) ≡ len
unfolding squeeze finalize
length-squeeze-absorb k input len h =
    length-squeeze_loop len (finalize (absorb k input)) len (omega (arith, rate-absorb k input))
      (omega arith)

pub squeeze-IsByte : (k : KeccakSponge) (len : ℕ) → All IsByte (squeeze k len)
unfolding squeeze
squeeze-IsByte k len = squeeze_loop-IsByte len (finalize k) len
