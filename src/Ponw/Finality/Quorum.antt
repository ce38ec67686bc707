-- ===== src/Ponw/Finality/Quorum.antt =====
-- What makes a block final.
use npchain.Base.{ℕ, ◌+◌, ◌<◌, ◌≤◌, List, [], ◌∷◌, length, get_or, take, Bytes}
use npchain.Crypto.Signature.Accepts.{AllZero}

-- Each signer is a member of the committee with a key of 32 bytes at least, and the signature at its
-- place does not begin with 32 zeros.
abbrev pub Signed : List Bytes → List Bytes → ℕ → List ℕ → Type 0
Signed committee signatures i [] = Unit {0}
Signed committee signatures i (idx ∷ rest) =
    (idx < length committee)
    × (32 ≤ length (get_or committee idx []))
    × (¬ AllZero (take 32 (get_or signatures i [])))
    × Signed committee signatures (i + 1) rest
