-- ===== src/Crypto/Hex/RoundTrip.antt =====
-- Hexadecimal text and the bytes that it stands for; and equality in constant time.
use Prim.Native.Nat.{bit_or, bit_xor}
use npchain.Base.{
  ℕ, ◌*◌, ◌/◌, ◌%◌, ◌<◌, ◌≡◌, ◌↔◌, refl, ap, Bool, true, ◌&&◌, [], ◌∷◌, length, Bytes, IsByte, All,
  all_below, all_below_sound, all_below2, all_below2_sound, both, ltb, ◌==◌, ==_iff, if◌then◌else◌,
  arith, Bool-cases, inl, inr,
}
use npchain.Crypto.Hex.{difference, constant_time_eq, hex_digit, to_hex, digit_value, from_hex}

abbrev pub byte_back : ℕ → ℕ
byte_back b =
    bit_or (digit_value (hex_digit (b / 16)) * 16 % 256) (digit_value (hex_digit (b % 16)))

byte_back_table : all_below 256 (λ b. byte_back b == b) ≡ true
unfolding all_below
byte_back_table = refl

byte_back_lem : (b : ℕ) → b < 256 → byte_back b ≡ b
byte_back_lem b h =
    (==_iff (byte_back b) b).0 (all_below_sound 256 (λ b. byte_back b == b) b byte_back_table h)

-- Bytes printed in hexadecimal are read back as they were.
pub from_hex-to_hex : (bs : Bytes) → All IsByte bs → from_hex (to_hex bs) ≡ bs
unfolding from_hex to_hex
from_hex-to_hex [] h = refl
from_hex-to_hex (b ∷ bs) (h, hs) = cc (byte_back_lem b h, from_hex-to_hex bs hs)

abbrev xor_right : ℕ → ℕ → Bool
xor_right a b = (if a == b then bit_xor a b == 0 else ltb 0 (bit_xor a b)) && ltb (bit_xor a b) 256

abbrev pub or_right : ℕ → ℕ → Bool
or_right a b = (if a == 0 then bit_or a b == b else ltb 0 (bit_or a b)) && ltb (bit_or a b) 256

xor_table : all_below2 256 256 xor_right ≡ true
unfolding all_below all_below2
xor_table = refl

pub or_table : all_below2 256 256 or_right ≡ true
unfolding all_below all_below2
or_table = refl

or_xor :
    (d a b : ℕ)
    → d < 256
    → a < 256
    → b < 256
    → (bit_or d (bit_xor a b) < 256) × ((bit_or d (bit_xor a b) ≡ 0) ↔ ((d ≡ 0) × (a ≡ b)))
or_xor d a b hd ha hb =
    let x : xor_right a b ≡ true = all_below2_sound 256 256 xor_right a b xor_table ha hb in
    let (x0, x1) = both (if a == b then bit_xor a b == 0 else ltb 0 (bit_xor a b)) _ x in
    let o : or_right d (bit_xor a b) ≡ true =
      all_below2_sound 256 256 or_right d (bit_xor a b) or_table hd (ground arith) in
    let (o0, o1) =
      both
        (if d == 0 then bit_or d (bit_xor a b) == bit_xor a b else ltb 0 (bit_or d (bit_xor a b))) _
        o in
    (
      ground arith,
      (
        (λ e. elim (Bool-cases (d == 0)) [
          | inl z ↦ (ground arith, ground arith)
          | inr z ↦ absurd (ground arith)
        ]),
        (λ (z, e). ground arith),
      ),
    )

difference_iff :
    (d : ℕ) (a b : Bytes)
    → d < 256
    → All IsByte a
    → All IsByte b
    → length a ≡ length b
    → (difference d a b ≡ 0) ↔ ((d ≡ 0) × (a ≡ b))
unfolding difference
difference_iff d [] [] hd ha hb e = ((λ z. (z, refl)), (λ (z, p). z))
difference_iff d [] (y ∷ b) hd ha hb e = absurd (omega arith)
difference_iff d (x ∷ a) [] hd ha hb e = absurd (omega arith)
difference_iff d (x ∷ a) (y ∷ b) hd (hx, ha) (hy, hb) e =
    let (small, step) = or_xor d x y hd hx hy in
    let rest = difference_iff (bit_or d (bit_xor x y)) a b small ha hb (omega arith) in
    (
      (λ z. let (z', p) = rest.0 z in let (zd, q) = step.0 z' in (zd, cc)),
      (λ (zd, p). rest.1 (step.1 (zd, ground arith), ground arith)),
    )

-- On bytes, `constant_time_eq` decides equality.
pub constant_time_eq_iff :
    (a b : Bytes) → All IsByte a → All IsByte b → (constant_time_eq a b ≡ true) ↔ (a ≡ b)
unfolding constant_time_eq
constant_time_eq_iff a b ha hb = elim (Bool-cases (length a == length b)) [
  | inl same ↦
      let d = difference_iff 0 a b (omega arith) ha hb (ground arith) in
      ((λ h. (d.0 (ground arith)).1), (λ e. ground (arith, d.1 (refl, e))))
  | inr other ↦ ((λ h. absurd (ground arith)), (λ e. absurd (ground (arith, ap length e))))
]
