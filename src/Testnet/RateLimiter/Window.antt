-- ===== src/Testnet/RateLimiter/Window.antt =====
-- How many requests the limiter allows in one window.
use npchain.Base.{
  ℕ, ◌+◌, ◌-◌, ◌/◌, ◌^◌, ◌<◌, ◌≤◌, ◌≡◌, inl, inr, refl, ◌∙◌, true, false, none, some, List, [], ◌∷◌,
  All, length, min, Bytes, Dict, bytes_key, bytes_eq, find, assign, find_or, find-assign,
  find-assign_self, bytes_eq_iff, ltb, ltb→lt, leb, if◌then◌else◌, Bool-cases, Option-cases, arith,
  ap,
}
use native.Mathlib.Nat.{mod-eq_of_lt}
use npchain.Testnet.RateLimiter.{
  IpRecord, default_record, Clock, max_requests_per_minute, max_tracked_ips, seconds_since,
  check_ban, count_request, cleanup, admit, allow,
}

-- The requests of an address among all requests, and those of them that are allowed.
abbrev pub requests : Bytes → List (Bytes × Clock) → ℕ
requests ip [] = 0
requests ip ((other, clock) ∷ calls) =
    if bytes_eq other ip then requests ip calls + 1 else requests ip calls

abbrev pub allowed : Bytes → Dict Bytes IpRecord → List (Bytes × Clock) → ℕ
allowed ip records [] = 0
allowed ip records ((other, clock) ∷ calls) =
    let (records', granted) = allow records other clock in
    let rest = allowed ip records' calls in
    if bytes_eq other ip then if granted then rest + 1 else rest else rest

-- A call less than a minute after `start`, and before a ban of that minute ends: the system clock
-- reads `epoch` or later, by less than a minute.
abbrev pub InWindow : ℕ → ℕ → Bytes × Clock → Type 0
InWindow start epoch (ip, clock) =
    (seconds_since start clock.now < 60)
    × (clock.epoch < epoch + 60)
    × (epoch ≤ clock.epoch_of_ban)
    × (clock.epoch_of_ban + 60 < 2 ^ 32)

find-cleanup :
    (now size : ℕ) (ip : Bytes) (rec : IpRecord) (m : Dict Bytes IpRecord)
    → find ip m ≡ some rec
    → seconds_since rec.window_start now < 60
    → find ip (cleanup now size m) ≡ some rec
unfolding cleanup find
find-cleanup now size ip rec [] h young = cc
find-cleanup now size ip rec ((other, r) ∷ m) h young =
    elim (Bool-cases (leb size (max_tracked_ips / 2))) [
      | inl small ↦ rw small h
      | inr large ↦ elim (Bool-cases (bytes_eq other ip)) [
        | inl same ↦
            let found : r ≡ rec = ground (arith, rw same at h) in
            let kept : ltb 300 (seconds_since r.window_start now) ≡ false =
              rw found (ground (arith, young)) in
            rw (large, kept, same) (ap some found)
        | inr apart ↦
            let below = find-cleanup now (size - 1) ip rec m (rw apart at h) young in
            let beside = find-cleanup now size ip rec m (rw apart at h) young in
            elim (Bool-cases (ltb 300 (seconds_since r.window_start now))) [
              | inl old ↦ rw (large, old) below
              | inr recent ↦ rw (large, recent, apart) beside
            ]
      ]
    ]

-- The record of an address that is not the caller's stays, if it is in its window.
find-admit_other :
    (ip other : Bytes) (rec r : IpRecord) (clock : Clock) (m : Dict Bytes IpRecord)
    → find ip m ≡ some rec
    → bytes_eq other ip ≡ false
    → seconds_since rec.window_start clock.now < 60
    → find ip (admit m other clock r).0 ≡ some rec
unfolding admit
find-admit_other ip other rec r clock m h apart young =
    let after : (v : IpRecord) → find ip (assign other v m) ≡ some rec =
      λ v. find-assign other ip v m ∙ rw apart h in
    let counted = count_request clock.now r in
    elim (Bool-cases (ltb max_requests_per_minute counted.request_count)) [
      | inl banned ↦ rw banned (after _)
      | inr fine ↦ elim (Bool-cases (ltb max_tracked_ips (length (assign other counted m)))) [
        | inl full ↦
            rw (fine, full)
              (find-cleanup clock.now (length (assign other counted m)) ip rec
                (assign other counted m) (after counted) young)
        | inr space ↦ rw (fine, space) (after counted)
      ]
    ]

find-allow_other :
    (ip other : Bytes) (rec : IpRecord) (clock : Clock) (m : Dict Bytes IpRecord)
    → find ip m ≡ some rec
    → bytes_eq other ip ≡ false
    → seconds_since rec.window_start clock.now < 60
    → find ip (allow m other clock).0 ≡ some rec
unfolding allow
find-allow_other ip other rec clock m h apart young =
    let r = find_or default_record other m in
    elim (Option-cases (check_ban clock.epoch r)) [
      | inl e ↦ rw (e, allow) (find-assign other ip r m ∙ rw apart h)
      | inr (r', e) ↦ rw (e, allow) (find-admit_other ip other rec r' clock m h apart young)
    ]

-- A record that is not banned, in its window, with one request more.
abbrev counted_up : IpRecord → IpRecord
counted_up rec = record rec { request_count = rec.request_count + 1 }

count_request-young :
    (now : ℕ) (rec : IpRecord)
    → seconds_since rec.window_start now < 60
    → rec.request_count ≤ 120
    → count_request now rec ≡ counted_up rec
unfolding count_request
count_request-young now rec young few =
    let same : leb 60 (seconds_since rec.window_start now) ≡ false = ground (arith, young) in
    rw same (ap (λ n. record rec { request_count = n }) (mod-eq_of_lt (omega arith)))

find_self : (ip : Bytes) (v : IpRecord) (m : Dict Bytes IpRecord) → find ip (assign ip v m) ≡ some v
find_self ip v m = find-assign_self ip v m

check_ban-open :
    (epoch : ℕ) (rec : IpRecord) → rec.blocked_until ≡ 0 → check_ban epoch rec ≡ some rec
unfolding check_ban
check_ban-open epoch rec open_ = rw open_ refl

check_ban-banned :
    (epoch : ℕ) (rec : IpRecord) → epoch < rec.blocked_until → check_ban epoch rec ≡ none
unfolding check_ban
check_ban-banned epoch rec later =
    let positive : ltb 0 rec.blocked_until ≡ true = ground arith in
    let before : ltb epoch rec.blocked_until ≡ true = ground arith in rw (positive, before) refl

find_or-found :
    (ip : Bytes) (rec : IpRecord) (m : Dict Bytes IpRecord)
    → find ip m ≡ some rec
    → find_or default_record ip m ≡ rec
unfolding find_or
find_or-found ip rec m h = rw (h, find_or) refl

-- A banned address is refused, and its record stays.
allow-banned :
    (ip : Bytes) (rec : IpRecord) (clock : Clock) (m : Dict Bytes IpRecord)
    → find ip m ≡ some rec
    → clock.epoch < rec.blocked_until
    → ((allow m ip clock).1 ≡ false) × (find ip (allow m ip clock).0 ≡ some rec)
unfolding allow
allow-banned ip rec clock m h later =
    rw (find_or-found ip rec m h, check_ban-banned clock.epoch rec later, allow)
      (refl, rw (find_or-found ip rec m h) (find_self ip rec m))

allow-open :
    (ip : Bytes) (rec : IpRecord) (clock : Clock) (m : Dict Bytes IpRecord)
    → find ip m ≡ some rec
    → rec.blocked_until ≡ 0
    → allow m ip clock ≡ admit m ip clock rec
unfolding allow
allow-open ip rec clock m h open_ =
    rw (find_or-found ip rec m h, check_ban-open clock.epoch rec open_, allow) refl

admit-granted :
    (ip : Bytes) (rec : IpRecord) (clock : Clock) (m : Dict Bytes IpRecord)
    → rec.request_count < 120
    → seconds_since rec.window_start clock.now < 60
    → ((admit m ip clock rec).1 ≡ true) × (find ip (admit m ip clock rec).0 ≡ some (counted_up rec))
unfolding admit
admit-granted ip rec clock m few young =
    let within : ltb max_requests_per_minute (rec.request_count + 1) ≡ false = ground arith in
    let records = assign ip (counted_up rec) m in
    rw (count_request-young clock.now rec young (omega arith)) (
      rw within (elim (Bool-cases (ltb max_tracked_ips (length records))) [
        | inl full ↦ rw full (
          refl,
          find-cleanup clock.now (length records) ip (counted_up rec) records
              (find_self ip (counted_up rec) m) young,
        )
        | inr space ↦ rw space (refl, find_self ip (counted_up rec) m)
      ]))

-- One request too many: refused, with a ban of a minute.
abbrev banned_at : ℕ → IpRecord → IpRecord
banned_at epoch rec = record rec {
  request_count = rec.request_count + 1;
  blocked_until = epoch + 60;
}

admit-refused :
    (ip : Bytes) (rec : IpRecord) (clock : Clock) (m : Dict Bytes IpRecord)
    → rec.request_count ≡ 120
    → seconds_since rec.window_start clock.now < 60
    → clock.epoch_of_ban + 60 < 2 ^ 32
    → ((admit m ip clock rec).1 ≡ false)
      × (find ip (admit m ip clock rec).0 ≡ some (banned_at clock.epoch_of_ban rec))
unfolding admit
admit-refused ip rec clock m at_limit young small =
    let beyond : ltb max_requests_per_minute (rec.request_count + 1) ≡ true = ground arith in
    let banned = banned_at clock.epoch_of_ban rec in
    rw (count_request-young clock.now rec young (omega arith)) (
      rw beyond (
        refl,
        find_self ip _ m
            ∙ ap
                (λ n.
                  some (record rec { request_count = rec.request_count + 1; blocked_until = n }))
                (mod-eq_of_lt small),
      ))

-- An address whose ban lasts beyond every call is allowed nothing.
allowed-banned :
    (ip : Bytes) (rec : IpRecord) (epoch : ℕ) (m : Dict Bytes IpRecord)
    (calls : List (Bytes × Clock))
    → find ip m ≡ some rec
    → epoch + 60 ≤ rec.blocked_until
    → All (InWindow rec.window_start epoch) calls
    → allowed ip m calls ≡ 0
allowed-banned ip rec epoch m [] h later within = refl
allowed-banned ip rec epoch m ((other, clock) ∷ calls) h later
      ((young, before, since, small), within) =
    elim (Bool-cases (bytes_eq other ip)) [
      | inl same ↦
          let own : other ≡ ip = (bytes_eq_iff other ip).0 same in
          let (refused, stays) = allow-banned ip rec clock m h (omega arith) in
          rw same (
            rw own (
              rw refused
                (allowed-banned ip rec epoch (allow m ip clock).0 calls stays later within)))
      | inr apart ↦ rw apart (
          allowed-banned ip rec epoch (allow m other clock).0 calls
            (find-allow_other ip other rec clock m h apart young) later within)
    ]

-- Calls of any addresses, in any order, in one window of an address that is not banned and has made
-- at most 120 requests in it, the system clock running less than a minute: of the address's requests
-- exactly as many are allowed as are left of the 120.
pub allowed-InWindow :
    (ip : Bytes) (rec : IpRecord) (epoch : ℕ) (m : Dict Bytes IpRecord)
    (calls : List (Bytes × Clock))
    → find ip m ≡ some rec
    → rec.blocked_until ≡ 0
    → rec.request_count ≤ 120
    → All (InWindow rec.window_start epoch) calls
    → allowed ip m calls ≡ min (requests ip calls) (120 - rec.request_count)
allowed-InWindow ip rec epoch m [] h open_ few within = omega arith
allowed-InWindow ip rec epoch m ((other, clock) ∷ calls) h open_ few
      ((young, before, since, small), within) =
    elim (Bool-cases (bytes_eq other ip)) [
      | inl same ↦
          let own : other ≡ ip = (bytes_eq_iff other ip).0 same in
          let opened = allow-open ip rec clock m h open_ in
          elim (Bool-cases (ltb rec.request_count 120)) [
            | inl fewer ↦
                let (granted, now) = admit-granted ip rec clock m (ground arith) young in
                let rest =
                  allowed-InWindow ip (counted_up rec) epoch (admit m ip clock rec).0 calls now
                    open_ (ground arith) within in
                rw same (rw own (rw opened (rw granted (omega (arith, rest, ltb→lt _ _ fewer)))))
            | inr full ↦
                let at_limit : rec.request_count ≡ 120 = ground arith in
                let (refused, now) = admit-refused ip rec clock m at_limit young small in
                let rest =
                  allowed-banned ip (banned_at clock.epoch_of_ban rec) epoch
                    (admit m ip clock rec).0 calls now (omega arith) within in
                rw same (rw own (rw opened (rw refused (omega (arith, rest, at_limit)))))
          ]
      | inr apart ↦ rw apart (
          allowed-InWindow ip rec epoch (allow m other clock).0 calls
            (find-allow_other ip other rec clock m h apart young) open_ few within)
    ]
