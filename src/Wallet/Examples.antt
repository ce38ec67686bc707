-- ===== src/Wallet/Examples.antt =====
-- The theorems about the wallet file at a wallet of constant keys.
use npchain.Base.{
  ◌≡◌, refl, true, some, [], ◌∷◌, ◌++◌, replicate, length-replicate, to_le, Bytes, IsByte, All, ℕ,
  ◌<◌, zero, suc, arith, Returns,
}
use npchain.Crypto.Hash.{sha3_256}
use npchain.Wallet.{
  pk_size, sk_size, WalletFile, new_wallet, derive_encryption_key, wallet_header, save_wallet,
  load_wallet,
}
use npchain.Wallet.RoundTrip.{load_wallet-save_wallet, load_wallet_any_keys}

replicate-IsByte : (n b : ℕ) → b < 256 → All IsByte (replicate n b)
replicate-IsByte zero b h = tt
replicate-IsByte (suc n) b h = (h, replicate-IsByte n b h)

abbrev password : Bytes
password = b'h' ∷ b'u' ∷ b'n' ∷ b't' ∷ b'e' ∷ b'r' ∷ b'4' ∷ b'2' ∷ []

abbrev keys : WalletFile
keys = record new_wallet { public_key = replicate pk_size 7; secret_key = replicate sk_size 9 }

load_wallet-save_wallet_example :
    load_wallet (save_wallet keys password 1700000000) new_wallet password
    ≡ some (
      record {
        salt = sha3_256 (to_le 8 1700000000);
        password_check = sha3_256 (derive_encryption_key password (sha3_256 (to_le 8 1700000000)));
        public_key = replicate pk_size 7;
        secret_key = replicate sk_size 9;
        loaded = true;
      },
      true,
    )
load_wallet-save_wallet_example =
    load_wallet-save_wallet keys new_wallet password 1700000000 (refl, refl)
      (length-replicate {A = ℕ} pk_size 7) (length-replicate {A = ℕ} sk_size 9)
      (replicate-IsByte pk_size 7 (omega arith)) (replicate-IsByte sk_size 9 (omega arith))

load_wallet_any_keys_example :
    Returns
      (load_wallet
        (wallet_header
            (sha3_256 (to_le 8 1700000000))
            (derive_encryption_key password (sha3_256 (to_le 8 1700000000)))
          ++ (1 ∷ 2 ∷ 3 ∷ []))
        new_wallet
        password)
      (λ (w, opened). opened ≡ true)
load_wallet_any_keys_example =
    load_wallet_any_keys new_wallet password (1 ∷ 2 ∷ 3 ∷ []) 1700000000 (refl, refl)
