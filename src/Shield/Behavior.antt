-- ===== src/Shield/Behavior.antt =====
-- `BehaviorProfile` of deploy/shield/proxy.cpp.
use npchain.Base.{
  ℕ, ◌+◌, ◌%◌, ◌^◌, Bool, List, [], ◌∷◌, ◌++◌, length, Dict, nat_key, assign, find_or, total, ltb,
  if◌then◌else◌, Floats,
}
use npchain.Shield.Bucket.{seconds}

-- The oldest message time is first.
pub record BehaviorProfile (Double : Type 0) : Type 0 where
  pub msg_times : List ℕ
  pub msg_type_counts : Dict ℕ ℕ
  pub anomaly_score : Double

abbrev pub count_message : ℕ → Dict ℕ ℕ → Dict ℕ ℕ
count_message msg_type counts = assign msg_type ((find_or 0 msg_type counts + 1) % 2 ^ 64) counts

module _ (fl : Floats) where
  open fl use {Double, of_uint, literal, add, mul, div, less}

  abbrev pub new_profile : BehaviorProfile Double
  new_profile = record { msg_times = []; msg_type_counts = []; anomaly_score = literal 0 0 }

  -- The times of the last 60 seconds.
  unfoldable pub prune : ℕ → List ℕ → List ℕ
  prune now [] = []
  prune now (t ∷ ts) =
      let rest = prune now ts in if less (literal 60 0) (seconds fl t now) then rest else t ∷ ts

  abbrev pub add_if : Bool → Double → Double → Double
  add_if b amount score = if b then add score amount else score

  -- The read of `msg_type_counts[MSG_GET_BLOCKS]` adds a count of 0 where there is none.
  unfoldable pub record_message : BehaviorProfile Double → ℕ → ℕ → BehaviorProfile Double
  record_message p msg_type now =
      let counts = count_message msg_type p.msg_type_counts in
      let times = prune now (p.msg_times ++ (now ∷ [])) in
      let msg_rate = div (of_uint (length times)) (literal 60 0) in
      let score = add_if (less (literal 200 0) msg_rate) (literal 1 1) p.anomaly_score in
      let all = total (λ t c. c) counts % 2 ^ 64 in
      let get_blocks = find_or 0 2 counts in
      let ratio = div (of_uint get_blocks) (of_uint all) in
      if ltb 100 all
      then record {
        msg_times = times;
        msg_type_counts = assign 2 get_blocks counts;
        anomaly_score = mul (add_if (less (literal 9 1) ratio) (literal 2 1) score) (literal 999 3);
      }
      else record {
        msg_times = times;
        msg_type_counts = counts;
        anomaly_score = mul score (literal 999 3);
      }
