-- ===== src/Crypto/Hex.antt =====
-- `constant_time_eq`, `to_hex` and `from_hex` of src/crypto/hash.cpp.
pub mod RoundTrip
use Prim.Native.Nat.{bit_or, bit_xor}
use npchain.Base.{
  ℕ, zero, suc, ◌+◌, ◌-◌, ◌*◌, ◌/◌, ◌%◌, Bool, true, false, ◌&&◌, List, [], ◌∷◌, ◌++◌, length,
  Bytes, ltb, leb, ◌==◌, if◌then◌else◌,
}

-- diff |= a[i] ^ b[i], over two spans of one length
unfoldable pub difference : ℕ → Bytes → Bytes → ℕ
difference diff [] bs = diff
difference diff (a ∷ as_) [] = diff
difference diff (a ∷ as_) (b ∷ bs) = difference (bit_or diff (bit_xor a b)) as_ bs

unfoldable pub constant_time_eq : Bytes → Bytes → Bool
constant_time_eq a b = if length a == length b then difference 0 a b == 0 else false

abbrev pub hex_digit : ℕ → ℕ
hex_digit n = if ltb n 10 then b'0' + n else b'a' + (n - 10)

unfoldable pub to_hex : Bytes → Bytes
to_hex [] = []
to_hex (b ∷ bs) = hex_digit (b / 16) ∷ hex_digit (b % 16) ∷ to_hex bs

-- A character that is no digit counts as 0.
abbrev pub digit_value : ℕ → ℕ
digit_value c =
    if leb b'0' c && leb c b'9'
    then c - b'0'
    else if leb b'a' c && leb c b'f'
    then c - b'a' + 10
    else if leb b'A' c && leb c b'F'
    then c - b'A' + 10
    else 0

unfoldable pub from_hex : Bytes → Bytes
from_hex [] = []
from_hex (c ∷ []) = []
from_hex (c ∷ d ∷ rest) = bit_or (digit_value c * 16 % 256) (digit_value d) ∷ from_hex rest
