-- ===== src/Shield/Bucket.antt =====
-- `TokenBucket` of deploy/shield/proxy.cpp. The steady clock counts nanoseconds.
use npchain.Base.{ℕ, ◌-◌, Bool, true, false, if◌then◌else◌, Floats}

pub record TokenBucket (Double : Type 0) : Type 0 where
  pub tokens : Double
  pub max_tokens : Double
  pub refill_rate : Double
  pub last_refill : ℕ

module _ (fl : Floats) where
  open fl use {Double, of_uint, literal, add, sub, mul, div, less, at_most}

  -- duration<double>(now - start).count()
  abbrev pub seconds : ℕ → ℕ → Double
  seconds start now = div (of_uint (now - start)) (literal 1_000_000_000 0)

  -- std::min(a, b)
  abbrev pub min_double : Double → Double → Double
  min_double a b = if less b a then b else a

  abbrev pub new_bucket : ℕ → ℕ → ℕ → TokenBucket Double
  new_bucket max_t rate now = record {
    tokens = literal max_t 0;
    max_tokens = literal max_t 0;
    refill_rate = literal rate 0;
    last_refill = now;
  }

  unfoldable pub consume : TokenBucket Double → Double → ℕ → Bool × TokenBucket Double
  consume b n now =
      let elapsed = seconds b.last_refill now in
      let refilled = min_double b.max_tokens (add b.tokens (mul elapsed b.refill_rate)) in
      if at_most n refilled
      then (true, record b { tokens = sub refilled n; last_refill = now })
      else (false, record b { tokens = refilled; last_refill = now })
