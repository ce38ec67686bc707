-- ===== src/Testnet/RateLimiter.antt =====
-- `RateLimiter` of src/testnet_node.cpp. Times of the steady clock are nanoseconds, those of the
-- system clock whole seconds; the lock makes each call one step.
pub mod Window
use npchain.Base.{
  ℕ, ◌+◌, ◌-◌, ◌*◌, ◌/◌, ◌%◌, ◌^◌, Bool, true, false, Option, none, some, [], ◌∷◌, length, Bytes,
  Dict, bytes_key, assign, find_or, ltb, leb, if◌then◌else◌,
}

pub record IpRecord : Type 0 where
  pub request_count : ℕ
  pub window_start : ℕ
  pub blocked_until : ℕ

abbrev pub default_record : IpRecord
default_record = record { request_count = 0; window_start = 0; blocked_until = 0 }

abbrev pub max_requests_per_minute : ℕ
max_requests_per_minute = 120

abbrev pub ban_duration_seconds : ℕ
ban_duration_seconds = 60

abbrev pub max_tracked_ips : ℕ
max_tracked_ips = 10_000

-- The readings of the clocks in one call: `now` is steady; `epoch` is read for a banned address,
-- `epoch_of_ban` when an address is banned.
pub record Clock : Type 0 where
  pub now : ℕ
  pub epoch : ℕ
  pub epoch_of_ban : ℕ

abbrev pub seconds_since : ℕ → ℕ → ℕ
seconds_since start now = (now - start) / 1_000_000_000

-- `none` for a ban that has not ended.
unfoldable pub check_ban : ℕ → IpRecord → Option IpRecord
check_ban epoch_now rec =
    if ltb 0 rec.blocked_until
    then if ltb epoch_now rec.blocked_until
      then none
      else some (record rec { blocked_until = 0; request_count = 0 })
    else some rec

abbrev pub reset_window : ℕ → IpRecord → IpRecord
reset_window now rec =
    if leb 60 (seconds_since rec.window_start now)
    then record rec { request_count = 0; window_start = now }
    else rec

unfoldable pub count_request : ℕ → IpRecord → IpRecord
count_request now rec =
    let rec' = reset_window now rec in
    record rec' { request_count = (rec'.request_count + 1) % 2 ^ 32 }

-- The loop over the entries, where `size` entries are tracked.
unfoldable pub cleanup : ℕ → ℕ → Dict Bytes IpRecord → Dict Bytes IpRecord
cleanup now size [] = []
cleanup now size ((ip, rec) ∷ records) =
    let erased = cleanup now (size - 1) records in
    let kept = cleanup now size records in
    if leb size (max_tracked_ips / 2)
    then (ip, rec) ∷ records
    else if ltb 300 (seconds_since rec.window_start now)
    then erased
    else (ip, rec) ∷ kept

-- What follows the ban: the window, the count, the ban of an address that asks too often.
unfoldable pub admit : Dict Bytes IpRecord → Bytes → Clock → IpRecord → Dict Bytes IpRecord × Bool
admit records ip clock rec =
    let counted = count_request clock.now rec in
    let records' = assign ip counted records in
    if ltb max_requests_per_minute counted.request_count
    then (
      assign ip
          (record counted { blocked_until = (clock.epoch_of_ban + ban_duration_seconds) % 2 ^ 32 })
          records,
      false,
    )
    else if ltb max_tracked_ips (length records')
    then (cleanup clock.now (length records') records', true)
    else (records', true)

unfoldable pub allow : Dict Bytes IpRecord → Bytes → Clock → Dict Bytes IpRecord × Bool
allow records ip clock =
    let rec = find_or default_record ip records in
    elim (check_ban clock.epoch rec) [
      | none ↦ (assign ip rec records, false)
      | some rec' ↦ admit records ip clock rec'
    ]
