-- ===== src/Crypto/Address.antt =====
-- The addresses of src/crypto/dilithium.cpp and their text.
pub mod Text
use npchain.Base.{
  ℕ, Bool, Option, none, some, [], ◌∷◌, ◌++◌, ◌||◌, not, length, take, drop, replicate, Bytes,
  bytes_eq, ltb, if◌then◌else◌, ◌+◌, ◌-◌,
}
use npchain.Crypto.Hash.{sha3_256, shake_256}
use npchain.Crypto.Hex.{to_hex, from_hex}

abbrev pub address_size : ℕ
address_size = 25

abbrev pub prefix : Bytes
prefix = b'c' ∷ b'e' ∷ b'r' ∷ b't' ∷ b'1' ∷ []

unfoldable pub to_bech32 : Bytes → Bytes
to_bech32 address = prefix ++ take 40 (to_hex address)

-- The bytes copied to the front of an array of zeros.
abbrev pub fill : ℕ → Bytes → Bytes
fill size bytes = take size bytes ++ replicate (size - length bytes) 0

unfoldable pub from_bech32 : Bytes → Option Bytes
from_bech32 encoded =
    if ltb (length encoded) 45 || not (bytes_eq (take 5 encoded) prefix)
    then none
    else some (fill address_size (from_hex (take 40 (drop 5 encoded))))

-- A version byte, the hash of the key, and a checksum of both.
unfoldable pub derive_address : Bytes → Bytes
derive_address public_key =
    let versioned = 0x01 ∷ shake_256 public_key 20 in versioned ++ take 4 (sha3_256 versioned)
