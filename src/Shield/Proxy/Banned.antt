-- ===== src/Shield/Proxy/Banned.antt =====
-- A ban is for ever.
use npchain.Base.{
  ℕ, ◌+◌, ◌%◌, ◌^◌, ◌≡◌, ◌∙◌, refl, inl, inr, Bool, true, false, not, some, List, [], ◌∷◌, length,
  Bytes, bytes_eq, bytes_eq_iff, bytes_key, find, find_or, find-assign, ltb, leb, ◌==◌,
  if◌then◌else◌, Bool-cases, Floats,
}
use npchain.Shield.Bucket.{consume}
use npchain.Shield.Behavior.{new_profile, record_message}
use npchain.Shield.Filters.{
  IpState, ProxyConfig, Shield, new_ip_state, update_ip, ip_state, reject_message, violate,
  identity, configured, msg_type, filter_edge, filter_rate, filter_anomaly, apply_filter,
}
use npchain.Shield.Proxy.{
  Event, arrive, open_connection, connect_failed, connected, chunk_received, reply_received,
  close_connection, forward, handle, run,
}

if_keeps {ℓ} :
    {A : Type ℓ} {x y : A} (P : A → Type 0) (b : Bool) → P x → P y → P (if b then x else y)
if_keeps P true p q = p
if_keeps P false p q = q

module _ (fl : Floats) where
  open fl use {Double}

  abbrev pub IsBanned : Bytes → Shield Double → Type 0
  IsBanned ip p = (s : IpState Double) × (find ip p.ip_states ≡ some s) × (s.banned ≡ true)

  abbrev Keeps : (IpState Double → IpState Double) → Type 0
  Keeps f = (s : IpState Double) → s.banned ≡ true → (f s).banned ≡ true

  update_ip-IsBanned :
      (ip other : Bytes) (now : ℕ) (f : IpState Double → IpState Double) (p : Shield Double)
      → Keeps f
      → IsBanned ip p
      → IsBanned ip (update_ip fl other now f p)
  unfolding update_ip find_or
  update_ip-IsBanned ip other now f p keeps (s, e, banned) =
      let v = f (find_or (new_ip_state fl now) other p.ip_states) in
      let found = find-assign other ip v p.ip_states in
      elim (Bool-cases (bytes_eq other ip)) [
        | inl same ↦
            let eq : other ≡ ip = (bytes_eq_iff other ip).0 same in
            let there : find other p.ip_states ≡ some s = rw eq e in
            (v, found ∙ rw same refl, rw (find_or, there) (keeps s banned))
        | inr differs ↦ (s, found ∙ rw differs e, banned)
      ]

  violate-Keeps : (limit : ℕ) → Keeps (violate fl limit)
  violate-Keeps limit s banned = elim (Bool-cases (ltb limit (violate fl limit s).violations)) [
    | inl e ↦ rw e refl
    | inr e ↦ rw e banned
  ]

  module _ (cfg : ProxyConfig Double) where
    filter_edge-IsBanned :
        (ip other : Bytes) (now : ℕ) (p : Shield Double)
        → IsBanned ip p
        → IsBanned ip (filter_edge fl cfg other now p).1
    unfolding filter_edge
    filter_edge-IsBanned ip other now p b =
        let seen = update_ip-IsBanned ip other now (identity fl) p (λ s h. h) b in
        let violated = update_ip-IsBanned ip other now (violate fl 50) p (violate-Keeps 50) b in
        let s = ip_state fl other now p in
        elim (Bool-cases s.banned) [
          | inl e ↦ rw e seen
          | inr e ↦ rw e (elim (Bool-cases (leb cfg.max_conn_per_ip s.active_connections)) [
            | inl f ↦ rw f violated
            | inr f ↦
                rw f (elim (Bool-cases (leb cfg.max_global_conn p.metrics.connections_active)) [
                  | inl g ↦ rw g seen
                  | inr g ↦ rw g seen
                ])
          ])
        ]

    filter_rate-IsBanned :
        (ip other : Bytes) (now : ℕ) (p : Shield Double)
        → IsBanned ip p
        → IsBanned ip (filter_rate fl cfg other now p).1
    unfolding filter_rate
    filter_rate-IsBanned ip other now p b =
        let drawn =
          consume fl (configured fl cfg (ip_state fl other now p).rate_bucket) (fl.literal 1 0)
            now in
        elim (Bool-cases (not drawn.0)) [
          | inl e ↦ rw e (update_ip-IsBanned ip other now _ p (λ s h. h) b)
          | inr e ↦ rw e (update_ip-IsBanned ip other now _ p (λ s h. h) b)
        ]

    filter_anomaly-IsBanned :
        (ip other chunk : Bytes) (now : ℕ) (p : Shield Double)
        → IsBanned ip p
        → IsBanned ip (filter_anomaly fl cfg other chunk now p).1
    unfolding filter_anomaly
    filter_anomaly-IsBanned ip other chunk now p b =
        let profile =
          record_message fl (find_or (new_profile fl) other p.behaviors) (msg_type chunk) now in
        elim (Bool-cases (ltb (length chunk) 5)) [
          | inl e ↦ rw e b
          | inr e ↦ rw e (elim (Bool-cases (fl.less cfg.anomaly_threshold profile.anomaly_score)) [
            | inl f ↦ rw f b
            | inr f ↦ rw f b
          ])
        ]

    abbrev StillBanned : Bytes → Bool × Shield Double → Type 0
    StillBanned ip (passes, p) = IsBanned ip p

    apply_filter-IsBanned :
        (ip other chunk : Bytes) (now : ℕ) (p : Shield Double)
        → IsBanned ip p
        → IsBanned ip (apply_filter fl cfg other chunk now p).1
    unfolding apply_filter
    apply_filter-IsBanned ip other chunk now p b = if_keeps (StillBanned ip) (cfg.layer == 2) b (
        if_keeps (StillBanned ip) (cfg.layer == 3) (filter_rate-IsBanned ip other now p b) (
          if_keeps (StillBanned ip) (cfg.layer == 4) b (
            if_keeps (StillBanned ip) (cfg.layer == 5) b (
              if_keeps (StillBanned ip) (cfg.layer == 6)
                (filter_anomaly-IsBanned ip other chunk now p b)
                (if_keeps (StillBanned ip) (cfg.layer == 7) b
                  (if_keeps (StillBanned ip) (cfg.layer == 8) b b))))))

    forward-IsBanned :
        (ip other chunk : Bytes) (now : ℕ) (p : Shield Double)
        → IsBanned ip p
        → IsBanned ip (forward fl cfg other chunk now p).0
    unfolding forward
    forward-IsBanned ip other chunk now p b =
        let filtered = apply_filter fl cfg other chunk now p in
        let after = apply_filter-IsBanned ip other chunk now p b in
        elim (Bool-cases (not filtered.0)) [
          | inl e ↦ rw e (
              update_ip-IsBanned ip other now (violate fl 100) (reject_message fl filtered.1)
                (violate-Keeps 100) after)
          | inr e ↦ rw e (update_ip-IsBanned ip other now _ _ (λ s h. h) after)
        ]

    handle-IsBanned :
        (ip : Bytes) (p : Shield Double) (e : Event)
        → IsBanned ip p
        → IsBanned ip (handle fl cfg p e)
    unfolding handle
    handle-IsBanned ip p (arrive other now) b =
        if_keeps (IsBanned ip) (cfg.layer == 1) (filter_edge-IsBanned ip other now p b) b
    handle-IsBanned ip p (open_connection other now) b =
        update_ip-IsBanned ip other now _ _ (λ s h. h) b
    handle-IsBanned ip p (connect_failed other now later) b =
        update_ip-IsBanned ip other now _ _ (λ s h. h) b
    handle-IsBanned ip p (connected now later) b = b
    handle-IsBanned ip p (chunk_received other chunk now) b =
        forward-IsBanned ip other chunk now p b
    handle-IsBanned ip p (reply_received n) b = b
    handle-IsBanned ip p (close_connection other now) b =
        update_ip-IsBanned ip other now _ _ (λ s h. h) b

    run-IsBanned :
        (ip : Bytes) (p : Shield Double) (events : List Event)
        → IsBanned ip p
        → IsBanned ip (run fl cfg p events)
    unfolding run
    run-IsBanned ip p [] b = b
    run-IsBanned ip p (e ∷ es) b = run-IsBanned ip (handle fl cfg p e) es (handle-IsBanned ip p e b)

    -- Once an address is banned, whatever the threads of the proxy do after that and in whatever
    -- order: its next connection to the edge is refused, and the refusal is counted.
    pub filter_edge-run_banned :
        (ip : Bytes) (p : Shield Double) (events : List Event) (now : ℕ)
        → IsBanned ip p
        → let q = run fl cfg p events in
          ((filter_edge fl cfg ip now q).0 ≡ false)
          × ((filter_edge fl cfg ip now q).1.metrics.connections_rejected
              ≡ (q.metrics.connections_rejected + 1) % 2 ^ 64)
    unfolding filter_edge find_or update_ip
    filter_edge-run_banned ip p events now b =
        let (s, e, banned) = run-IsBanned ip p events b in
        let refused : (ip_state fl ip now (run fl cfg p events)).banned ≡ true =
          rw (find_or, e) banned in
        rw refused (refl, refl)
