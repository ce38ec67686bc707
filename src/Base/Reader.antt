-- ===== src/Base/Reader.antt =====
-- Reading fixed-size fields off the front of a byte string.
use Prim.Native.Nat.{ℕ, ◌^◌, ◌<◌}
use mathlib.Core.Path.{◌≡◌, refl, ap, subst}
use mathlib.Core.Bool.{true}
use mathlib.Core.List.{[], ◌∷◌, ◌++◌}
use mathlib.Core.Option.{Option, none, some}
use native.Mathlib.Omega.{arith}
use npchain.Base.Tests.{leb, if◌then◌else◌}
use npchain.Base.Lists.{length, take, drop, length-append, take-length_append, drop-length_append}
use npchain.Base.Results.{◌>>=◌}
use npchain.Base.Octets.{Bytes, to_le, from_le, length-to_le, from_le-to_le}

-- `n` bytes, if there are as many, and what follows them.
unfoldable pub read : ℕ → Bytes → Option (Bytes × Bytes)
read n bs = if leb n (length bs) then some (take n bs, drop n bs) else none

-- An unsigned integer of `n` bytes.
unfoldable pub read_uint : ℕ → Bytes → Option (ℕ × Bytes)
read_uint n bs = do (xs, rest) ← read n bs; some (from_le xs, rest)

fits : (xs rest : Bytes) → leb (length xs) (length (xs ++ rest)) ≡ true
fits xs rest = ground (arith, length-append xs rest)

read_front : (xs rest : Bytes) → read (length xs) (xs ++ rest) ≡ some (xs, rest)
unfolding read
read_front xs rest = rw (fits xs rest, take-length_append xs rest, drop-length_append xs rest)

pub read-append : (n : ℕ) (xs rest : Bytes) → length xs ≡ n → read n (xs ++ rest) ≡ some (xs, rest)
read-append n xs rest e = subst (λ k. read k (xs ++ rest) ≡ some (xs, rest)) e (read_front xs rest)

pub read_uint-to_le :
    (n x : ℕ) (rest : Bytes) → x < 256 ^ n → read_uint n (to_le n x ++ rest) ≡ some (x, rest)
unfolding read_uint
read_uint-to_le n x rest h =
    rw (read-append n (to_le n x) rest (length-to_le n x), from_le-to_le n x h)

pub append-nil_bytes : (xs : Bytes) → xs ++ [] ≡ xs
append-nil_bytes [] = refl
append-nil_bytes (x ∷ xs) = ap (◌∷◌ x) (append-nil_bytes xs)

pub read_all : (xs : Bytes) → read (length xs) xs ≡ some (xs, [])
read_all xs =
    subst (λ ys. read (length xs) ys ≡ some (xs, [])) (append-nil_bytes xs) (read_front xs [])
