-- ===== src/Wallet/RoundTrip.antt =====
-- A saved wallet is loaded again.
use Prim.Native.Nat.{bit_xor}
use npchain.Base.{
  ℕ, zero, suc, ◌+◌, ◌≤◌, ◌≡◌, ◌∙◌, refl, sym, ap, subst, Bool, true, false, Option, some, [], ◌∷◌,
  ◌++◌, length, length-append, take, drop, replicate, length-replicate, take-length_append,
  drop-length_append, Bytes, IsByte, All, All-append, bytes_eq, bytes_eq_refl, to_le, from_le, ltb,
  ◌==◌, ==_iff, all_below, all_below2, all_below2_sound, arith, Returns,
}
use npchain.Crypto.Hash.{Hash256, sha3_256, shake_256}
use npchain.Crypto.Hash.Sizes.{length-sha3_256, length-shake_256, shake_256-IsByte}
use npchain.Wallet.{
  pk_size, sk_size, wallet_magic, derive_encryption_key, xor_bytes, encrypt_data, decrypt_data,
  WalletFile, wallet_header, save_wallet, read_into, load_body, load_wallet,
}

abbrev undone : ℕ → ℕ → Bool
undone a b = bit_xor (bit_xor a b) b == a

xor_table : all_below2 256 256 undone ≡ true
unfolding all_below all_below2
xor_table = refl

xor_bytes-again :
    (bs ks : Bytes)
    → All IsByte bs
    → All IsByte ks
    → length bs ≡ length ks
    → xor_bytes (xor_bytes bs ks) ks ≡ bs
unfolding xor_bytes
xor_bytes-again [] ks h k same = refl
xor_bytes-again (b ∷ bs) [] h k same = refl
xor_bytes-again (b ∷ bs) (c ∷ ks) (h, hs) (k, kss) same =
    let first : bit_xor (bit_xor b c) c ≡ b =
      (==_iff (bit_xor (bit_xor b c) c) b).0 (all_below2_sound 256 256 undone b c xor_table h k) in
    cc (first, xor_bytes-again bs ks hs kss (omega arith))

length-xor_bytes : (bs ks : Bytes) → length (xor_bytes bs ks) ≡ length bs
unfolding xor_bytes
length-xor_bytes [] ks = refl
length-xor_bytes (b ∷ bs) [] = refl
length-xor_bytes (b ∷ bs) (k ∷ ks) = ap suc (length-xor_bytes bs ks)

decrypt_data-encrypt_data :
    (text : Bytes) (key : Hash256)
    → All IsByte text
    → decrypt_data (encrypt_data text key) key ≡ text
unfolding decrypt_data encrypt_data
decrypt_data-encrypt_data text key h =
    let stream = shake_256 key (length text) in
    rw (length-xor_bytes text stream) (
      xor_bytes-again text stream h (shake_256-IsByte key (length text))
        (sym (length-shake_256 key (length text))))

drop_all : (n : ℕ) (xs : Bytes) → length xs ≤ n → drop n xs ≡ []
drop_all zero [] h = refl
drop_all zero (x ∷ xs) h = absurd (omega arith)
drop_all (suc n) [] h = refl
drop_all (suc n) (x ∷ xs) h = drop_all n xs (omega arith)

append_nil : (xs : Bytes) → xs ++ [] ≡ xs
append_nil [] = refl
append_nil (x ∷ xs) = ap (◌∷◌ x) (append_nil xs)

read_into-append :
    (array x rest : Bytes) → length array ≡ length x → read_into array (x ++ rest) ≡ x
unfolding read_into
read_into-append array x rest same =
    rw
      (
        drop_all (length (x ++ rest)) array (omega (arith, length-append x rest)),
        same,
        take-length_append x rest,
      )
      (append_nil x)

not_short : (n : ℕ) → 8 ≤ n → ltb n 8 ≡ false
not_short n h = ground arith

load_wallet-wallet_header :
    (salt key : Hash256) (rest : Bytes) (w : WalletFile) (password : Bytes)
    → load_wallet (wallet_header salt key ++ rest) w password
      ≡ some (load_body ((salt ++ sha3_256 key) ++ rest) w password)
unfolding load_wallet wallet_header to_le from_le bytes_eq
load_wallet-wallet_header salt key rest w password =
    let tail = (salt ++ sha3_256 key) ++ rest in
    let long : ltb (length (wallet_magic ++ (1 ∷ 0 ∷ 1 ∷ 0 ∷ tail))) 8 ≡ false =
      not_short (length (wallet_magic ++ (1 ∷ 0 ∷ 1 ∷ 0 ∷ tail))) (omega arith) in
    rw (load_wallet, long) refl

append_assoc : (xs ys zs : Bytes) → (xs ++ ys) ++ zs ≡ xs ++ (ys ++ zs)
append_assoc [] ys zs = refl
append_assoc (x ∷ xs) ys zs = ap (◌∷◌ x) (append_assoc xs ys zs)

drop_first : (n : ℕ) (x rest : Bytes) → length x ≡ n → drop n (x ++ rest) ≡ rest
drop_first n x rest e = subst (λ m. drop m (x ++ rest) ≡ rest) e (drop-length_append x rest)

take_first : (n : ℕ) (x rest : Bytes) → length x ≡ n → take n (x ++ rest) ≡ x
take_first n x rest e = subst (λ m. take m (x ++ rest) ≡ x) e (take-length_append x rest)

-- An object whose two hashes have their size.
abbrev pub HasHashes : WalletFile → Type 0
HasHashes w = (length w.salt ≡ 32) × (length w.password_check ≡ 32)

-- What is read of the body behind a header.
body_salt :
    (salt check rest : Bytes) (w : WalletFile)
    → HasHashes w
    → length salt ≡ 32
    → length check ≡ 32
    → (read_into w.salt ((salt ++ check) ++ rest) ≡ salt)
      × (read_into w.password_check (drop 32 ((salt ++ check) ++ rest)) ≡ check)
      × (drop 64 ((salt ++ check) ++ rest) ≡ rest)
body_salt salt check rest w (h, k) hs hc = (
  rw (append_assoc salt check rest) (read_into-append w.salt salt (check ++ rest) (omega arith)),
  rw (append_assoc salt check rest, drop_first 32 salt (check ++ rest) hs)
      (read_into-append w.password_check check rest (omega arith)),
  drop_first 64 (salt ++ check) rest (omega (arith, length-append salt check)),
)

-- What is loaded from the decrypted payload.
abbrev opened_with : Hash256 → Hash256 → Bytes → Option (WalletFile × Bool)
opened_with salt check payload = some (
  record {
    salt = salt;
    password_check = check;
    public_key = take pk_size payload;
    secret_key = drop pk_size payload;
    loaded = true;
  },
  true,
)

opened_with-append :
    (salt check public_key secret_key : Bytes)
    → length public_key ≡ pk_size
    → opened_with salt check (public_key ++ secret_key)
      ≡ some (
        record {
          salt = salt;
          password_check = check;
          public_key = public_key;
          secret_key = secret_key;
          loaded = true;
        },
        true,
      )
opened_with-append salt check public_key secret_key e =
    rw (take_first pk_size public_key secret_key e, drop_first pk_size public_key secret_key e) refl

load_body-opened :
    (w : WalletFile) (password : Bytes) (salt rest : Bytes)
    → HasHashes w
    → length salt ≡ 32
    → let key = derive_encryption_key password salt in
      let payload = decrypt_data (read_into (replicate (pk_size + sk_size) 0) rest) key in
      load_body ((salt ++ sha3_256 key) ++ rest) w password ≡ (
        record {
          salt = salt;
          password_check = sha3_256 key;
          public_key = take pk_size payload;
          secret_key = drop pk_size payload;
          loaded = true;
        },
        true,
      )
unfolding load_body
load_body-opened w password salt rest h hs =
    let key = derive_encryption_key password salt in
    let (e1, e2, e3) = body_salt salt (sha3_256 key) rest w h hs (length-sha3_256 key) in
    rw (load_body, e1, e2, e3, bytes_eq_refl (sha3_256 key)) refl

-- A wallet whose keys are bytes of their sizes, saved with any password at any time, is loaded with
-- that password as it was, whatever wallet the object held before.
pub load_wallet-save_wallet :
    (w before : WalletFile) (password : Bytes) (now : ℕ)
    → HasHashes before
    → length w.public_key ≡ pk_size
    → length w.secret_key ≡ sk_size
    → All IsByte w.public_key
    → All IsByte w.secret_key
    → let salt = sha3_256 (to_le 8 now) in
      load_wallet (save_wallet w password now) before password
      ≡ some (
        record {
          salt = salt;
          password_check = sha3_256 (derive_encryption_key password salt);
          public_key = w.public_key;
          secret_key = w.secret_key;
          loaded = true;
        },
        true,
      )
unfolding save_wallet encrypt_data
load_wallet-save_wallet w before password now h pk sk pk_bytes sk_bytes =
    let salt = sha3_256 (to_le 8 now) in
    let key = derive_encryption_key password salt in
    let payload = w.public_key ++ w.secret_key in
    let cipher = encrypt_data payload key in
    let blank : Bytes = replicate (pk_size + sk_size) 0 in
    let size : length blank ≡ length cipher = omega (
      arith,
      length-replicate {A = ℕ} (pk_size + sk_size) 0,
      length-xor_bytes payload (shake_256 key (length payload)),
      length-append w.public_key w.secret_key,
    ) in
    let whole : read_into blank cipher ≡ cipher =
      subst (λ c. read_into blank c ≡ cipher) (append_nil cipher)
        (read_into-append blank cipher [] size) in
    let back =
      decrypt_data-encrypt_data payload key
        (All-append IsByte w.public_key w.secret_key pk_bytes sk_bytes) in
    load_wallet-wallet_header salt key cipher before password
    ∙ ap some (load_body-opened before password salt cipher h (length-sha3_256 (to_le 8 now)))
    ∙ ap (λ c. opened_with salt (sha3_256 key) (decrypt_data c key)) whole
    ∙ ap (opened_with salt (sha3_256 key)) back
    ∙ opened_with-append salt (sha3_256 key) w.public_key w.secret_key pk

-- With the right password every file that has the 72 bytes of a saved header is loaded, whatever
-- follows them: a wallet whose keys are cut off or overwritten is not refused.
pub load_wallet_any_keys :
    (before : WalletFile) (password rest : Bytes) (now : ℕ)
    → HasHashes before
    → let salt = sha3_256 (to_le 8 now) in
      let header = wallet_header salt (derive_encryption_key password salt) in
      Returns (load_wallet (header ++ rest) before password) (λ (w, opened). opened ≡ true)
load_wallet_any_keys before password rest now h =
    let salt = sha3_256 (to_le 8 now) in
    let key = derive_encryption_key password salt in
    rw
      (
        load_wallet-wallet_header salt key rest before password,
        load_body-opened before password salt rest h (length-sha3_256 (to_le 8 now)),
      )
      refl
