-- ===== src/Shield/Filters.antt =====
-- The state of the proxy of deploy/shield/proxy.cpp, and the filters of its eight layers. `now` is
-- the steady clock. A chunk is what one call of `recv` gives.
pub mod Framing
use npchain.Base.{
  ℕ, ◌+◌, ◌%◌, ◌^◌, Bool, true, false, not, ◌&&◌, ◌||◌, [], length, get_or, take, Bytes, from_le,
  Dict, bytes_key, assign, find_or, ltb, leb, ◌==◌, if◌then◌else◌, Floats,
}
use npchain.Shield.Bucket.{TokenBucket, new_bucket, consume}
use npchain.Shield.Behavior.{BehaviorProfile, new_profile, record_message}
use npchain.Shield.Breaker.{CircuitBreaker, is_open}

pub record IpState (Double : Type 0) : Type 0 where
  pub rate_bucket : TokenBucket Double
  pub active_connections : ℕ
  pub total_bytes : ℕ
  pub messages_seen : ℕ
  pub first_seen : ℕ
  pub last_seen : ℕ
  pub violations : ℕ
  pub banned : Bool

pub record ProxyMetrics : Type 0 where
  pub connections_total : ℕ
  pub connections_active : ℕ
  pub bytes_forwarded : ℕ
  pub messages_forwarded : ℕ
  pub messages_rejected : ℕ
  pub connections_rejected : ℕ

-- The fields of the configuration that the filters read.
pub record ProxyConfig (Double : Type 0) : Type 0 where
  pub layer : ℕ
  pub max_conn_per_ip : ℕ
  pub max_global_conn : ℕ
  pub max_message_size : ℕ
  pub msg_per_sec_per_ip : Double
  pub anomaly_threshold : Double

-- The globals of the program.
pub record Shield (Double : Type 0) : Type 0 where
  pub ip_states : Dict Bytes (IpState Double)
  pub behaviors : Dict Bytes (BehaviorProfile Double)
  pub circuit_breaker : CircuitBreaker Double
  pub metrics : ProxyMetrics

-- The length and the type of a message; the chunk has 5 bytes at least.
abbrev pub msg_len : Bytes → ℕ
msg_len chunk = from_le (take 4 chunk)

abbrev pub msg_type : Bytes → ℕ
msg_type chunk = get_or chunk 4 0

abbrev pub is_block_type : ℕ → Bool
is_block_type type = type == 4 || type == 3

-- Layer 4: a HELLO of fewer than 44 bytes is refused.
unfoldable pub filter_identity : Bytes → Bool
filter_identity chunk =
    if ltb (length chunk) 5
    then true
    else if msg_type chunk == 1
    then (if ltb (msg_len chunk) 44 then false else true)
    else true

-- Layer 5: a new block of fewer than 175 bytes is refused.
unfoldable pub filter_content : Bytes → Bool
filter_content chunk =
    if ltb (length chunk) 5
    then true
    else if is_block_type (msg_type chunk)
    then (if msg_type chunk == 4 && ltb (msg_len chunk) 175 then false else true)
    else true

-- Layer 7: `5 + msg_len - 1` is a sum in uint32_t.
unfoldable pub filter_encrypt : Bytes → Bool
filter_encrypt chunk =
    if ltb (length chunk) 5
    then false
    else if ltb (length chunk) ((msg_len chunk + 4) % 2 ^ 32)
    then false
    else true

module _ (fl : Floats) where
  open fl use {Double, literal, less}

  abbrev pub new_ip_state : ℕ → IpState Double
  new_ip_state now = record {
    rate_bucket = new_bucket fl 100 50 now;
    active_connections = 0;
    total_bytes = 0;
    messages_seen = 0;
    first_seen = now;
    last_seen = now;
    violations = 0;
    banned = false;
  }

  -- A reference from `get_ip_state`, written through.
  unfoldable pub update_ip :
      Bytes → ℕ → (IpState Double → IpState Double) → Shield Double → Shield Double
  update_ip ip now f p = record p {
    ip_states = assign ip (f (find_or (new_ip_state now) ip p.ip_states)) p.ip_states;
  }

  abbrev pub ip_state : Bytes → ℕ → Shield Double → IpState Double
  ip_state ip now p = find_or (new_ip_state now) ip p.ip_states

  abbrev pub reject_connection : Shield Double → Shield Double
  reject_connection p = record p {
    metrics = record p.metrics {
      connections_rejected = (p.metrics.connections_rejected + 1) % 2 ^ 64;
    };
  }

  abbrev pub reject_message : Shield Double → Shield Double
  reject_message p = record p {
    metrics = record p.metrics { messages_rejected = (p.metrics.messages_rejected + 1) % 2 ^ 64 };
  }

  -- One more violation; more than `limit` of them ban the address.
  abbrev pub violate : ℕ → IpState Double → IpState Double
  violate limit s =
      let violations = (s.violations + 1) % 2 ^ 32 in
      record s { violations = violations; banned = if ltb limit violations then true else s.banned }

  abbrev pub identity : IpState Double → IpState Double
  identity s = s

  module _ (cfg : ProxyConfig Double) where
    -- Layer 1, for a connection.
    unfoldable pub filter_edge : Bytes → ℕ → Shield Double → Bool × Shield Double
    filter_edge client_ip now p =
        let p0 = update_ip client_ip now identity p in
        let s = ip_state client_ip now p in
        if s.banned
        then (false, reject_connection p0)
        else if leb cfg.max_conn_per_ip s.active_connections
        then (false, reject_connection (update_ip client_ip now (violate 50) p))
        else if leb cfg.max_global_conn p.metrics.connections_active
        then (false, reject_connection p0)
        else (true, p0)

    -- Layer 2.
    unfoldable pub filter_protocol : Bytes → Bool
    filter_protocol chunk =
        if ltb (length chunk) 5
        then false
        else if ltb cfg.max_message_size (msg_len chunk)
        then false
        else if ltb (msg_len chunk) 1
        then false
        else if ltb (msg_type chunk) 1 || ltb 6 (msg_type chunk)
        then false
        else true

    abbrev pub configured : TokenBucket Double → TokenBucket Double
    configured b = record b {
      max_tokens = cfg.msg_per_sec_per_ip;
      refill_rate = cfg.msg_per_sec_per_ip;
    }

    -- Layer 3.
    unfoldable pub filter_rate : Bytes → ℕ → Shield Double → Bool × Shield Double
    filter_rate client_ip now p =
        let s = ip_state client_ip now p in
        let (granted, bucket) = consume fl (configured s.rate_bucket) (literal 1 0) now in
        if not granted
        then (
          false,
          reject_message (
              update_ip client_ip now
                (λ s'. record s' {
                  rate_bucket = bucket;
                  violations = (s'.violations + 1) % 2 ^ 32;
                })
                p),
        )
        else (true, update_ip client_ip now (λ s'. record s' { rate_bucket = bucket }) p)

    -- Layer 6.
    unfoldable pub filter_anomaly : Bytes → Bytes → ℕ → Shield Double → Bool × Shield Double
    filter_anomaly client_ip chunk now p =
        let profile =
          record_message fl (find_or (new_profile fl) client_ip p.behaviors) (msg_type chunk) now in
        let p1 = record p { behaviors = assign client_ip profile p.behaviors } in
        if ltb (length chunk) 5
        then (true, p)
        else if less cfg.anomaly_threshold profile.anomaly_score
        then (false, reject_message p1)
        else (true, p1)

    unfoldable pub apply_filter : Bytes → Bytes → ℕ → Shield Double → Bool × Shield Double
    apply_filter client_ip chunk now p =
        if cfg.layer == 2
        then (filter_protocol chunk, p)
        else if cfg.layer == 3
        then filter_rate client_ip now p
        else if cfg.layer == 4
        then (filter_identity chunk, p)
        else if cfg.layer == 5
        then (filter_content chunk, p)
        else if cfg.layer == 6
        then filter_anomaly client_ip chunk now p
        else if cfg.layer == 7
        then (filter_encrypt chunk, p)
        else if cfg.layer == 8
        then (not (is_open fl p.circuit_breaker), p)
        else (true, p)
