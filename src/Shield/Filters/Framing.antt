-- ===== src/Shield/Filters/Framing.antt =====
-- What the filters let through, by the length that a message announces.
use npchain.Base.{◌+◌, ◌-◌, ◌^◌, ◌≤◌, ◌<◌, ◌≡◌, ◌↔◌, true, length, Bytes, Floats, arith}
use npchain.Shield.Filters.{ProxyConfig, msg_len, msg_type, filter_protocol, filter_encrypt}

-- The protocol gate passes exactly the chunks of 5 bytes at least that announce between 1 byte and
-- the largest size and have one of the six types.
pub filter_protocol_iff :
    (fl : Floats) (cfg : ProxyConfig fl.Double) (chunk : Bytes)
    → (filter_protocol fl cfg chunk ≡ true) ↔ (
        (5 ≤ length chunk)
        × (1 ≤ msg_len chunk)
        × (msg_len chunk ≤ cfg.max_message_size)
        × (1 ≤ msg_type chunk)
        × (msg_type chunk ≤ 6))
unfolding filter_protocol
filter_protocol_iff fl cfg chunk = ground arith

-- The encryption bridge passes a chunk of 5 bytes at least exactly when the message that it
-- announces is complete, as long as the announced length is below 2 ^ 32 - 4. From there on the
-- sum wraps, and it passes every such chunk.
pub filter_encrypt_announced :
    (chunk : Bytes)
    → 5 ≤ length chunk
    → msg_len chunk < 2 ^ 32
    → (msg_len chunk < 2 ^ 32 - 4
        → (filter_encrypt chunk ≡ true) ↔ (msg_len chunk + 4 ≤ length chunk))
      × (2 ^ 32 - 4 ≤ msg_len chunk → filter_encrypt chunk ≡ true)
unfolding filter_encrypt
filter_encrypt_announced chunk long small = ground arith
