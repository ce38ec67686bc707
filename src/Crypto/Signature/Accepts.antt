-- ===== src/Crypto/Signature/Accepts.antt =====
-- Which signatures are accepted.
use Prim.Native.Nat.{bit_or}
use npchain.Base.{
  ℕ, ◌<◌, ◌≤◌, ◌≡◌, ◌↔◌, refl, true, [], ◌∷◌, length, take, Bytes, IsByte, All, All-take,
  all_below2_sound, both, ltb, ◌==◌, if◌then◌else◌, arith, Bool-cases, inl, inr,
}
use npchain.Crypto.Hex.RoundTrip.{or_right, or_table}
use npchain.Crypto.Signature.{zero_check, dilithium_verify}

abbrev pub AllZero : Bytes → Type 0
AllZero bs = All (λ b. b ≡ 0) bs

or_zero :
    (a b : ℕ) → a < 256 → b < 256 → (bit_or a b < 256) × ((bit_or a b ≡ 0) ↔ ((a ≡ 0) × (b ≡ 0)))
or_zero a b ha hb =
    let o : or_right a b ≡ true = all_below2_sound 256 256 or_right a b or_table ha hb in
    let (value, small) = both (if a == 0 then bit_or a b == b else ltb 0 (bit_or a b)) _ o in
    (
      ground arith,
      (
        (λ e. elim (Bool-cases (a == 0)) [
          | inl z ↦ (ground arith, ground arith)
          | inr z ↦ absurd (ground arith)
        ]),
        (λ (za, zb). ground arith),
      ),
    )

zero_check-AllZero_iff :
    (acc : ℕ) (bs : Bytes)
    → acc < 256
    → All IsByte bs
    → (zero_check acc bs ≡ 0) ↔ ((acc ≡ 0) × AllZero bs)
unfolding zero_check
zero_check-AllZero_iff acc [] small h = ((λ e. (e, tt)), (λ (e, z). e))
zero_check-AllZero_iff acc (b ∷ bs) small (hb, h) =
    let (next, (split, join)) = or_zero acc b small hb in
    let (to, from) = zero_check-AllZero_iff (bit_or acc b) bs next h in
    (
      (λ e. let (o, zs) = to e in let (za, zb) = split o in (za, (zb, zs))),
      (λ (za, (zb, zs)). from (join (za, zb), zs)),
    )

-- A key of 32 bytes at least and a signature whose first 32 bytes are not all zero are accepted for
-- every message, and nothing else is.
pub dilithium_verify-AllZero_iff :
    (message signature public_key : Bytes)
    → All IsByte signature
    → (dilithium_verify message signature public_key ≡ true)
      ↔ ((32 ≤ length public_key) × ¬ AllZero (take 32 signature))
unfolding dilithium_verify
dilithium_verify-AllZero_iff message signature public_key bytes =
    let (to, from) =
      zero_check-AllZero_iff 0 (take 32 signature) (omega arith)
        (All-take IsByte 32 signature bytes) in
    (
      (λ e. (ground arith, (λ z. ground (arith, from (refl, z))))),
      (λ (long, nonzero). elim (Bool-cases (zero_check 0 (take 32 signature) == 0)) [
        | inl z ↦ absurd (nonzero (to (ground arith)).1)
        | inr nz ↦ ground (arith, nz)
      ]),
    )
