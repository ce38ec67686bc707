-- ===== src/Shield/Examples.antt =====
-- The theorems about the proxy shield at concrete inputs.
use npchain.Base.{
  Bytes, ◌+◌, ◌-◌, ◌%◌, ◌^◌, ◌≤◌, ◌<◌, ◌≡◌, ◌↔◌, refl, arith, true, false, ℕ, [], ◌∷◌, length,
  replicate, fractions, from_le, find, bytes_key, bytes_eq,
}
use npchain.Shield.Breaker.{CircuitBreaker, new_breaker}
use npchain.Shield.Filters.{
  IpState, ProxyConfig, Shield, msg_len, filter_edge, filter_encrypt, new_ip_state,
}
use npchain.Shield.Filters.Framing.{filter_encrypt_announced}
use npchain.Shield.Proxy.{arrive, connected, close_connection, run}
use npchain.Shield.Proxy.Banned.{filter_edge-run_banned}

-- A breaker that tripped an hour ago and has failed ever since.
abbrev failing : CircuitBreaker (ℕ × ℕ)
failing = record (new_breaker fractions) {
  results = replicate 100 false;
  tripped = true;
  trip_time = 5;
}

-- A HELLO that announces 2 ^ 32 - 1 bytes, of which none are there.
abbrev huge : Bytes
huge = 255 ∷ 255 ∷ 255 ∷ 255 ∷ 1 ∷ []

filter_encrypt_announced_example :
    (msg_len huge < 2 ^ 32 - 4 → (filter_encrypt huge ≡ true) ↔ (msg_len huge + 4 ≤ length huge))
    × (2 ^ 32 - 4 ≤ msg_len huge → filter_encrypt huge ≡ true)
unfolding from_le
filter_encrypt_announced_example = filter_encrypt_announced huge (omega arith) (omega arith)

abbrev edge : ProxyConfig (ℕ × ℕ)
edge = record {
  layer = 1;
  max_conn_per_ip = 5;
  max_global_conn = 10000;
  max_message_size = 4194304;
  msg_per_sec_per_ip = (100, 1);
  anomaly_threshold = (7, 10);
}

abbrev outcast : IpState (ℕ × ℕ)
outcast = record (new_ip_state fractions 0) { violations = 51; banned = true }

abbrev guarded : Shield (ℕ × ℕ)
guarded = record {
  ip_states = (9 ∷ [], outcast) ∷ [];
  behaviors = [];
  circuit_breaker = new_breaker fractions;
  metrics = record {
    connections_total = 60;
    connections_active = 5;
    bytes_forwarded = 0;
    messages_forwarded = 0;
    messages_rejected = 0;
    connections_rejected = 51;
  };
}

filter_edge-run_banned_example :
    let q =
      run fractions edge guarded
        (close_connection (9 ∷ []) 10 ∷ arrive (8 ∷ []) 20 ∷ connected 30 31 ∷ []) in
    ((filter_edge fractions edge (9 ∷ []) 40 q).0 ≡ false)
    × ((filter_edge fractions edge (9 ∷ []) 40 q).1.metrics.connections_rejected
        ≡ (q.metrics.connections_rejected + 1) % 2 ^ 64)
unfolding find bytes_eq
filter_edge-run_banned_example =
    filter_edge-run_banned fractions edge (9 ∷ []) guarded
      (close_connection (9 ∷ []) 10 ∷ arrive (8 ∷ []) 20 ∷ connected 30 31 ∷ []) 40
      (outcast, refl, refl)
