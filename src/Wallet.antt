-- ===== src/Wallet.antt =====
-- The wallet file of src/wallet.cpp: its encryption, and how it is saved and loaded. Erasing memory,
-- the prompts and the printed texts are left out.
pub mod RoundTrip
mod Examples
use Prim.Native.Nat.{bit_xor}
use npchain.Base.{
  ℕ, zero, suc, ◌+◌, ◌-◌, Bool, true, false, not, Option, none, some, List, [], ◌∷◌, ◌++◌, length,
  take, drop, replicate, Bytes, bytes_eq, to_le, from_le, ltb, ◌==◌, if◌then◌else◌,
}
use npchain.Crypto.Address.{derive_address}
use npchain.Crypto.Hash.{Hash256, sha3_256, shake_256, zero_hash}

abbrev pub pk_size : ℕ
pk_size = 2592

abbrev pub sk_size : ℕ
sk_size = 4896

abbrev pub wallet_magic : Bytes
wallet_magic = b'N' ∷ b'P' ∷ b'C' ∷ b'W' ∷ []

abbrev pub wallet_version : ℕ
wallet_version = 1

-- The rounds that are left, the first of them with number `i`.
unfoldable pub stretch : ℕ → ℕ → Bytes → Bytes
stretch zero i stretched = stretched
stretch (suc left) i stretched = stretch left (i + 1) (shake_256 (stretched ++ to_le 4 i) 32)

unfoldable pub derive_encryption_key : Bytes → Hash256 → Hash256
derive_encryption_key password salt = stretch 10_000 0 (shake_256 (password ++ salt) 32)

unfoldable pub xor_bytes : Bytes → Bytes → Bytes
xor_bytes [] keystream = []
xor_bytes (b ∷ bs) [] = b ∷ bs
xor_bytes (b ∷ bs) (k ∷ ks) = bit_xor b k ∷ xor_bytes bs ks

-- The stream is as long as the text.
unfoldable pub encrypt_data : Bytes → Hash256 → Bytes
encrypt_data plaintext key = xor_bytes plaintext (shake_256 key (length plaintext))

unfoldable pub decrypt_data : Bytes → Hash256 → Bytes
decrypt_data ciphertext key = encrypt_data ciphertext key

pub record WalletFile : Type 0 where
  pub salt : Hash256
  pub password_check : Hash256
  pub public_key : Bytes
  pub secret_key : Bytes
  pub loaded : Bool

abbrev pub new_wallet : WalletFile
new_wallet = record {
  salt = zero_hash;
  password_check = zero_hash;
  public_key = replicate pk_size 0;
  secret_key = replicate sk_size 0;
  loaded = false;
}

-- The first 72 bytes of a file.
unfoldable pub wallet_header : Hash256 → Hash256 → Bytes
wallet_header file_salt enc_key =
    wallet_magic ++ (to_le 2 wallet_version ++ (to_le 2 1 ++ (file_salt ++ sha3_256 enc_key)))

-- The file that `save` writes; `now` is the reading of the clock that the salt is made of.
unfoldable pub save_wallet : WalletFile → Bytes → ℕ → Bytes
save_wallet w password now =
    let file_salt = sha3_256 (to_le 8 now) in
    let enc_key = derive_encryption_key password file_salt in
    wallet_header file_salt enc_key ++ encrypt_data (w.public_key ++ w.secret_key) enc_key

-- A read into an array: a file that is too short leaves the end of the array as it was.
unfoldable pub read_into : Bytes → Bytes → Bytes
read_into array file = take (length array) file ++ drop (length file) array

-- What `load` does with the password and the bytes after the first 8.
unfoldable pub load_body : Bytes → WalletFile → Bytes → WalletFile × Bool
load_body body w password =
    let salt = read_into w.salt body in
    let password_check = read_into w.password_check (drop 32 body) in
    let encrypted = read_into (replicate (pk_size + sk_size) 0) (drop 64 body) in
    let enc_key = derive_encryption_key password salt in
    let payload = decrypt_data encrypted enc_key in
    if not (bytes_eq (sha3_256 enc_key) password_check)
    then (record w { salt = salt; password_check = password_check }, false)
    else (
      record {
        salt = salt;
        password_check = password_check;
        public_key = take pk_size payload;
        secret_key = drop pk_size payload;
        loaded = true;
      },
      true,
    )

-- `none` for a file of fewer than 8 bytes, of which the source compares bytes that it has not read.
unfoldable pub load_wallet : Bytes → WalletFile → Bytes → Option (WalletFile × Bool)
load_wallet file w password =
    if ltb (length file) 8
    then none
    else if not (bytes_eq (take 4 file) wallet_magic)
    then some (w, false)
    else if not (from_le (take 2 (drop 4 file)) == wallet_version)
    then some (w, false)
    else some (load_body (drop 8 file) w password)

abbrev pub get_address : WalletFile → Bytes
get_address w = derive_address w.public_key

-- `cmd_change_password`, from the passwords on that are typed: the exit code and the file.
unfoldable pub change_password : Bytes → Bytes → Bytes → Bytes → ℕ → Option (ℕ × Bytes)
change_password file old_pw new_pw1 new_pw2 now = elim (load_wallet file new_wallet old_pw) [
  | none ↦ none
  | some (w, opened) ↦ some (
      if not opened
      then (1, file)
      else if ltb (length new_pw1) 8
      then (1, file)
      else if not (bytes_eq new_pw1 new_pw2)
      then (1, file)
      else (0, save_wallet w new_pw1 now))
]
