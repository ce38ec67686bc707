-- ===== src/Shield/Proxy.antt =====
-- `handle_connection` and the accepting loop of deploy/shield/proxy.cpp, as the steps that threads
-- take on the shared state. The sockets are those of the operating system.
pub mod Banned
use npchain.Base.{
  ℕ, ◌+◌, ◌-◌, ◌%◌, ◌^◌, Bool, true, false, not, ◌&&◌, List, [], ◌∷◌, length, Bytes, ltb, ◌==◌,
  if◌then◌else◌, Floats,
}
use npchain.Shield.Breaker.{record_result}
use npchain.Shield.Filters.{
  IpState, ProxyConfig, Shield, new_ip_state, update_ip, ip_state, reject_message, violate,
  filter_edge, apply_filter,
}

-- What becomes of a chunk of the client.
pub data Delivery : Type 0 where
  forwarded dropped closed : Delivery

-- The steps, each with its readings of the clock. A thread that connects to the next hop reports the
-- result to the breaker; one that fails gives its connection back.
pub data Event : Type 0 where
  arrive : Bytes → ℕ → Event
  open_connection : Bytes → ℕ → Event
  connect_failed : Bytes → ℕ → ℕ → Event
  connected : ℕ → ℕ → Event
  chunk_received : Bytes → Bytes → ℕ → Event
  reply_received : ℕ → Event
  close_connection : Bytes → ℕ → Event

module _ (fl : Floats) where
  open fl use {Double}

  abbrev pub count_open : Shield Double → Shield Double
  count_open p = record p {
    metrics = record p.metrics {
      connections_total = (p.metrics.connections_total + 1) % 2 ^ 64;
      connections_active = (p.metrics.connections_active + 1) % 2 ^ 64;
    };
  }

  abbrev pub count_close : Shield Double → Shield Double
  count_close p = record p {
    metrics = record p.metrics {
      connections_active = (p.metrics.connections_active + (2 ^ 64 - 1)) % 2 ^ 64;
    };
  }

  abbrev pub count_bytes : ℕ → Shield Double → Shield Double
  count_bytes n p = record p {
    metrics = record p.metrics { bytes_forwarded = (p.metrics.bytes_forwarded + n) % 2 ^ 64 };
  }

  abbrev pub count_message : Shield Double → Shield Double
  count_message p = record p {
    metrics = record p.metrics { messages_forwarded = (p.metrics.messages_forwarded + 1) % 2 ^ 64 };
  }

  abbrev pub enter : ℕ → IpState Double → IpState Double
  enter now s = record s {
    active_connections = (s.active_connections + 1) % 2 ^ 32;
    last_seen = now;
  }

  abbrev pub leave : IpState Double → IpState Double
  leave s = record s { active_connections = (s.active_connections + (2 ^ 32 - 1)) % 2 ^ 32 }

  abbrev pub see_message : IpState Double → IpState Double
  see_message s = record s { messages_seen = (s.messages_seen + 1) % 2 ^ 64 }

  abbrev pub report : Bool → ℕ → ℕ → Shield Double → Shield Double
  report success now later p = record p {
    circuit_breaker = record_result fl p.circuit_breaker success now later;
  }

  module _ (cfg : ProxyConfig Double) where
    -- A chunk from the client to the next hop.
    unfoldable pub forward : Bytes → Bytes → ℕ → Shield Double → Shield Double × Delivery
    forward client_ip chunk now p =
        let (passes, p1) = apply_filter fl cfg client_ip chunk now p in
        let refused = update_ip fl client_ip now (violate fl 100) (reject_message fl p1) in
        if not passes
        then (
          refused,
          if ltb 100 (ip_state fl client_ip now refused).violations
              then Delivery.closed
              else Delivery.dropped,
        )
        else (
          update_ip fl client_ip now see_message (count_message (count_bytes (length chunk) p1)),
          Delivery.forwarded,
        )

    unfoldable pub handle : Shield Double → Event → Shield Double
    handle p (arrive ip now) = if cfg.layer == 1 then (filter_edge fl cfg ip now p).1 else p
    handle p (open_connection ip now) = update_ip fl ip now (enter now) (count_open p)
    handle p (connect_failed ip now later) =
        count_close (update_ip fl ip now leave (report false now later p))
    handle p (connected now later) = report true now later p
    handle p (chunk_received ip chunk now) = (forward ip chunk now p).0
    handle p (reply_received n) = count_bytes n p
    handle p (close_connection ip now) = count_close (update_ip fl ip now leave p)

    unfoldable pub run : Shield Double → List Event → Shield Double
    run p [] = p
    run p (e ∷ es) = run (handle p e) es
