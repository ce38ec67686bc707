-- ===== src/Shield/Breaker.antt =====
-- `CircuitBreaker` of deploy/shield/proxy.cpp. The clock is read twice in a call: for the trip and for
-- the reset.
pub mod Tripped
use npchain.Base.{
  ℕ, suc, ◌+◌, ◌-◌, ◌%◌, ◌^◌, Bool, true, false, ◌&&◌, List, [], ◌∷◌, ◌++◌, length, drop, leb,
  if◌then◌else◌, Floats,
}
use npchain.Shield.Bucket.{seconds}

-- The oldest result is first.
pub record CircuitBreaker (Double : Type 0) : Type 0 where
  pub results : List Bool
  pub window_size : ℕ
  pub threshold : Double
  pub tripped : Bool
  pub trip_time : ℕ

unfoldable pub count_failures : List Bool → ℕ
count_failures [] = 0
count_failures (true ∷ rs) = count_failures rs
count_failures (false ∷ rs) = suc (count_failures rs)

module _ (fl : Floats) where
  open fl use {Double, of_uint, literal, div, less}

  abbrev pub new_breaker : CircuitBreaker Double
  new_breaker = record {
    results = [];
    window_size = 1000;
    threshold = literal 1 1;
    tripped = false;
    trip_time = 0;
  }

  -- The last `window_size` results.
  abbrev pub push_result : CircuitBreaker Double → Bool → List Bool
  push_result b success =
      let pushed = b.results ++ (success ∷ []) in drop (length pushed - b.window_size) pushed

  -- From 100 results on: more failures than the threshold.
  abbrev pub is_failing : CircuitBreaker Double → List Bool → Bool
  is_failing b results =
      leb 100 (length results)
      && less b.threshold
          (div (of_uint (count_failures results % 2 ^ 32)) (of_uint (length results)))

  unfoldable pub reset_after : CircuitBreaker Double → ℕ → CircuitBreaker Double
  reset_after b now =
      if b.tripped && less (literal 30 0) (seconds fl b.trip_time now)
      then record b { tripped = false; results = [] }
      else b

  unfoldable pub record_result : CircuitBreaker Double → Bool → ℕ → ℕ → CircuitBreaker Double
  record_result b success now later =
      let results = push_result b success in
      reset_after
        (if is_failing b results
          then record b { results = results; tripped = true; trip_time = now }
          else record b { results = results })
        later

  abbrev pub is_open : CircuitBreaker Double → Bool
  is_open b = b.tripped
