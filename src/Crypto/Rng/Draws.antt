-- ===== src/Crypto/Rng/Draws.antt =====
-- What `next_bounded` and `next_bytes` return.
use npchain.Base.{
  ℕ, zero, suc, ◌+◌, ◌*◌, ◌/◌, ◌-◌, ◌%◌, ◌^◌, ◌<◌, ◌≤◌, ◌≡◌, true, false, leb, ◌==◌, Returns,
  Whenever, some, refl, Bool-cases, inl, inr, arith,
}
use native.Mathlib.Nat.{div-add-mod, mul-mod_right, mod-lt}
use npchain.Crypto.Rng.{Rng, next_u64, threshold, draw_loop, next_bounded}

-- The generator after `n` words, and the word that it yields then.
abbrev pub after : ℕ → Rng → Rng
after zero r = r
after (suc n) r = after n (next_u64 r).1

draw_loop_returns :
    (fuel n bound : ℕ) (r : Rng)
    → n < fuel
    → 0 < bound
    → threshold bound ≤ (next_u64 (after n r)).0
    → Returns (draw_loop fuel bound r) (λ d. d.0 < bound)
unfolding draw_loop
draw_loop_returns zero n bound r lt pos h = absurd (omega arith)
draw_loop_returns (suc fuel) zero bound r lt pos h =
    let e : leb (threshold bound) (next_u64 r).0 ≡ true = ground arith in rw e (grind arith)
draw_loop_returns (suc fuel) (suc n) bound r lt pos h =
    elim (Bool-cases (leb (threshold bound) (next_u64 r).0)) [
      | inl e ↦ rw e (grind arith)
      | inr e ↦ rw e (draw_loop_returns fuel n bound (next_u64 r).1 (omega arith) pos h)
    ]

pub next_bounded_returns :
    (fuel n bound : ℕ) (r : Rng)
    → n < fuel
    → 0 < bound
    → threshold bound ≤ (next_u64 (after n r)).0
    → Returns (next_bounded fuel bound r) (λ d. d.0 < bound)
unfolding next_bounded
next_bounded_returns fuel n bound r lt pos h =
    let e : (bound == 0) ≡ false = ground arith in rw e (draw_loop_returns fuel n bound r lt pos h)

-- The loop ends within `fuel` draws, whatever the state of the generator.
abbrev pub Fair : ℕ → ℕ → Type 0
Fair fuel bound = (r : Rng) → Returns (next_bounded fuel bound r) (λ d. d.0 < bound)

-- A bound whose threshold is 0, such as a power of two, rejects no word.
pub threshold_zero-Fair : (fuel bound : ℕ) → 0 < bound → threshold bound ≡ 0 → Fair (suc fuel) bound
threshold_zero-Fair fuel bound pos e r =
    next_bounded_returns (suc fuel) 0 bound r (omega arith) pos (omega arith)

complement_mod : (b m : ℕ) → b ≤ m → (m - (m - b) % b) % b ≡ 0
complement_mod b m le =
    let e : m - (m - b) % b ≡ b * ((m - b) / b + 1) = grind (arith, div-add-mod (m - b) b) in
    rw e (mul-mod_right b ((m - b) / b + 1))

-- The words that are not rejected, from the threshold to 2 ^ 64 - 1, fill a whole number of rounds
-- of the bound, so that each residue is drawn by equally many of them; fewer than `bound` words are
-- rejected.
pub threshold_exact :
    (bound : ℕ)
    → 0 < bound
    → bound ≤ 2 ^ 64
    → ((2 ^ 64 - threshold bound) % bound ≡ 0) × (threshold bound < bound)
unfolding threshold
threshold_exact bound pos le = (complement_mod bound (2 ^ 64) le, mod-lt (2 ^ 64 - bound) pos)

-- A draw that ends lies below its bound.
draw_loop_below :
    (fuel bound : ℕ) (rng : Rng)
    → 0 < bound
    → Whenever (draw_loop fuel bound rng) (λ d. d.0 < bound)
unfolding draw_loop
draw_loop_below zero bound rng h = tt
draw_loop_below (suc fuel) bound rng h =
    elim (Bool-cases (leb (threshold bound) (next_u64 rng).0)) [
      | inl accepted ↦ rw accepted (mod-lt (next_u64 rng).0 h)
      | inr rejected ↦ rw rejected (draw_loop_below fuel bound (next_u64 rng).1 h)
    ]

pub next_bounded_below :
    (fuel bound : ℕ) (rng : Rng)
    → 0 < bound
    → Whenever (next_bounded fuel bound rng) (λ d. d.0 < bound)
unfolding next_bounded
next_bounded_below fuel bound rng h =
    let nonzero : (bound == 0) ≡ false = ground arith in
    rw nonzero (draw_loop_below fuel bound rng h)

-- A word that reaches the threshold is accepted at once.
pub next_bounded_accepts :
    (fuel bound : ℕ) (rng : Rng)
    → 0 < bound
    → threshold bound ≤ (next_u64 rng).0
    → next_bounded (suc fuel) bound rng ≡ some ((next_u64 rng).0 % bound, (next_u64 rng).1)
unfolding next_bounded draw_loop
next_bounded_accepts fuel bound rng pos h =
    let nonzero : (bound == 0) ≡ false = ground arith in
    let reached : leb (threshold bound) (next_u64 rng).0 ≡ true = ground arith in
    rw (nonzero, reached) refl

-- Each of the next `n` words is `bound` at least.
abbrev pub Lucky : ℕ → ℕ → Rng → Type 0
Lucky bound zero rng = Unit {0}
Lucky bound (suc n) rng = (bound ≤ (next_u64 rng).0) × Lucky bound n (next_u64 rng).1

pub threshold-lt : (bound : ℕ) → 0 < bound → threshold bound < bound
unfolding threshold
threshold-lt bound pos = mod-lt (2 ^ 64 - bound) pos

-- Then a draw below a bound that is no larger takes one word.
pub Lucky-draw :
    (fuel bound n b : ℕ) (rng : Rng)
    → Lucky bound (suc n) rng
    → 0 < b
    → b ≤ bound
    → (next_bounded (suc fuel) b rng ≡ some ((next_u64 rng).0 % b, (next_u64 rng).1))
      × ((next_u64 rng).0 % b < b)
Lucky-draw fuel bound n b rng lucky pos le = (
  next_bounded_accepts fuel b rng pos (omega (arith, threshold-lt b pos)),
  mod-lt (next_u64 rng).0 pos,
)

pub Lucky-le : (bound m n : ℕ) (rng : Rng) → m ≤ n → Lucky bound n rng → Lucky bound m rng
Lucky-le bound zero n rng le lucky = tt
Lucky-le bound (suc m) zero rng le lucky = absurd (omega arith)
Lucky-le bound (suc m) (suc n) rng le (now, lucky) =
    (now, Lucky-le bound m n (next_u64 rng).1 (omega arith) lucky)
