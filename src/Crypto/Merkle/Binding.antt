-- ===== src/Crypto/Merkle/Binding.antt =====
-- What a Merkle root commits to: two openings of one place are equal unless `sha3_256` collides.
use npchain.Base.{◌≡◌, ◌≢◌, length, Bytes}
use npchain.Crypto.Hash.{Hash256, sha3_256}

abbrev pub IsDigest : Hash256 → Type 0
IsDigest h = length h ≡ 32

-- Two different byte strings with one digest.
abbrev pub Collision : Type 0
Collision = (x : Bytes) × (y : Bytes) × (x ≢ y) × (sha3_256 x ≡ sha3_256 y)
