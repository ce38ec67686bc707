-- ===== src/Crypto/Rng.antt =====
-- src/crypto/hash.cpp, class DeterministicRNG.
pub mod Draws
use npchain.Base.{
  ℕ, zero, suc, ◌+◌, ◌-◌, ◌*◌, ◌/◌, ◌%◌, ◌^◌, Bool, true, false, Option, none, some, List, [], ◌∷◌,
  ◌++◌, length, drop, take, get_or, Bytes, to_le, from_le, ltb, leb, ◌==◌, if◌then◌else◌, Floats,
}
use npchain.Crypto.Hash.{Hash256, shake_256}

pub record Rng : Type 0 where
  pub state : Bytes
  pub position : ℕ
  pub counter : ℕ

unfoldable pub new_rng : Hash256 → Rng
new_rng seed = record { state = shake_256 seed 1024; position = 0; counter = 0 }

unfoldable pub expand_state : Rng → Rng
expand_state r =
    let counter = (r.counter + 1) % 2 ^ 64 in
    record { state = shake_256 (to_le 8 counter ++ r.state) 1024; position = 0; counter = counter }

-- The generator with `n` bytes left in its buffer.
unfoldable pub with_bytes : ℕ → Rng → Rng
with_bytes n r = if ltb (length r.state) (r.position + n) then expand_state r else r

unfoldable pub next_u64 : Rng → ℕ × Rng
unfolding with_bytes
next_u64 r =
    let r' = with_bytes 8 r in
    (from_le (take 8 (drop r'.position r'.state)), record r' { position = r'.position + 8 })

-- (~bound + 1) % bound
unfoldable pub threshold : ℕ → ℕ
threshold bound = (2 ^ 64 - bound) % bound

-- The rejection loop has no bound of its own: `none` means that `fuel` draws were all rejected.
unfoldable pub draw_loop : ℕ → ℕ → Rng → Option (ℕ × Rng)
draw_loop zero bound r = none
draw_loop (suc fuel) bound r =
    let rest = draw_loop fuel bound (next_u64 r).1 in
    if leb (threshold bound) (next_u64 r).0
    then some ((next_u64 r).0 % bound, (next_u64 r).1)
    else rest

unfoldable pub next_bounded : ℕ → ℕ → Rng → Option (ℕ × Rng)
next_bounded fuel bound r = if bound == 0 then some (0, r) else draw_loop fuel bound r

unfoldable pub next_bytes : ℕ → Rng → Bytes × Rng
next_bytes zero r = ([], r)
next_bytes (suc n) r =
    let r' = if leb (length r.state) r.position then expand_state r else r in
    let (rest, r'') = next_bytes n (record r' { position = r'.position + 1 }) in
    (get_or r'.state r'.position 0 ∷ rest, r'')

module _ (fl : Floats) where
  open fl use {Double, of_uint, div, less}

  unfoldable pub next_bool : Double → Rng → Bool × Rng
  next_bool p r =
      let (word, r') = next_u64 r in (less (div (of_uint word) (of_uint (2 ^ 64 - 1))) p, r')
