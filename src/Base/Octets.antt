-- ===== src/Base/Octets.antt =====
-- Byte strings: hashes, addresses and texts are lists of numbers below 256.
use Prim.Native.Nat.{ℕ, zero, suc, ◌+◌, ◌*◌, ◌/◌, ◌%◌, ◌^◌, ◌<◌}
use mathlib.Core.Path.{◌≡◌, refl, ap}
use mathlib.Core.Bool.{Bool, true, false, ◌&&◌}
use mathlib.Core.List.{List, [], ◌∷◌}
use native.Mathlib.Omega.{arith}
use npchain.Base.Tests.{ltb, ◌==◌, if◌then◌else◌}
use npchain.Base.Lists.{length, All}

abbrev pub Bytes : Type 0
Bytes = List ℕ

abbrev pub IsByte : ℕ → Type 0
IsByte b = b < 256

-- `==` on arrays, vectors and strings of bytes.
unfoldable pub bytes_eq : Bytes → Bytes → Bool
bytes_eq [] [] = true
bytes_eq [] (b ∷ bs) = false
bytes_eq (a ∷ as_) [] = false
bytes_eq (a ∷ as_) (b ∷ bs) = let rest = bytes_eq as_ bs in a == b && rest

pub bytes_eq_refl : (a : Bytes) → bytes_eq a a ≡ true
unfolding bytes_eq
bytes_eq_refl [] = refl
bytes_eq_refl (x ∷ xs) = ground (arith, bytes_eq_refl xs)

pub bytes_eq→eq : (a b : Bytes) → bytes_eq a b ≡ true → a ≡ b
unfolding bytes_eq
bytes_eq→eq [] [] h = refl
bytes_eq→eq [] (b ∷ bs) h = cc
bytes_eq→eq (a ∷ xs) [] h = cc
bytes_eq→eq (a ∷ xs) (b ∷ bs) h = ground (arith, bytes_eq→eq xs bs)

-- `std::string::operator<` (by bytes).
unfoldable pub bytes_lt : Bytes → Bytes → Bool
bytes_lt [] [] = false
bytes_lt [] (b ∷ bs) = true
bytes_lt (a ∷ xs) [] = false
bytes_lt (a ∷ xs) (b ∷ bs) = let rest = bytes_lt xs bs in if a == b then rest else ltb a b

-- An unsigned integer of `n` bytes as `memcpy` lays it out on a little-endian machine.
unfoldable pub to_le : ℕ → ℕ → Bytes
to_le zero x = []
to_le (suc n) x = (x % 256) ∷ to_le n (x / 256)

unfoldable pub from_le : Bytes → ℕ
from_le [] = 0
from_le (b ∷ bs) = b + 256 * from_le bs

pub length-to_le : (n x : ℕ) → length (to_le n x) ≡ n
unfolding to_le
length-to_le zero x = refl
length-to_le (suc n) x = ap suc (length-to_le n (x / 256))

pub to_le-IsByte : (n x : ℕ) → All IsByte (to_le n x)
unfolding to_le
to_le-IsByte zero x = tt
to_le-IsByte (suc n) x = (omega arith, to_le-IsByte n (x / 256))

pub from_le-to_le : (n x : ℕ) → x < 256 ^ n → from_le (to_le n x) ≡ x
unfolding to_le from_le
from_le-to_le zero x h = omega arith
from_le-to_le (suc n) x h = omega (arith, from_le-to_le n (x / 256) (grind arith))
