-- ===== src/Crypto/Kyber.antt =====
-- The stand-in of src/crypto/kyber.cpp for key encapsulation. The secret key comes from the system.
use npchain.Base.{ℕ, ◌+◌, ◌++◌, take, drop, Bytes}
use npchain.Crypto.Hash.{shake_256}

abbrev pub kyber_pk_size : ℕ
kyber_pk_size = 1568

abbrev pub kyber_ct_size : ℕ
kyber_ct_size = 1568

abbrev pub kyber_ss_size : ℕ
kyber_ss_size = 32

-- The public key of `kyber_keygen`.
unfoldable pub kyber_public_key : Bytes → Bytes
kyber_public_key secret_key = shake_256 secret_key kyber_pk_size

-- The ciphertext and the shared secret.
unfoldable pub kyber_encaps : Bytes → Bytes × Bytes
kyber_encaps recipient_public_key =
    let combined = shake_256 recipient_public_key (kyber_ct_size + kyber_ss_size) in
    (take kyber_ct_size combined, drop kyber_ct_size combined)

unfoldable pub kyber_decaps : Bytes → Bytes → Bytes
kyber_decaps ct sk = shake_256 (ct ++ sk) kyber_ss_size
