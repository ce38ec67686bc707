-- ===== src/Crypto/Merkle.antt =====
-- The Merkle tree of src/crypto/hash.cpp.
pub mod RoundTrip
pub mod Duplicate
pub mod Binding
use npchain.Base.{
  ℕ, zero, suc, ◌+◌, ◌/◌, Bool, true, false, not, ◌||◌, List, [], ◌∷◌, ◌++◌, length, leb, ◌==◌,
  if◌then◌else◌, bytes_eq,
}
use npchain.Crypto.Hash.{Hash256, zero_hash, sha3_256}

abbrev pub combine : Hash256 → Hash256 → Hash256
combine a b = sha3_256 (a ++ b)

-- One level of the tree: an odd last node is paired with itself.
unfoldable pub next_level : List Hash256 → List Hash256
next_level [] = []
next_level (a ∷ []) = combine a a ∷ []
next_level (a ∷ b ∷ rest) = combine a b ∷ next_level rest

abbrev pub head_or : List Hash256 → Hash256 → Hash256
head_or [] d = d
head_or (x ∷ xs) d = x

-- `while (cur.size() > 1)`; each level is shorter, so as many rounds as leaves are enough.
unfoldable pub root_loop : ℕ → List Hash256 → List Hash256
root_loop zero cur = cur
root_loop (suc fuel) cur =
    let rest = root_loop fuel (next_level cur) in if leb (length cur) 1 then cur else rest

unfoldable pub merkle_root : List Hash256 → Hash256
unfolding root_loop
merkle_root leaves = head_or (root_loop (length leaves) leaves) zero_hash

pub record MerkleProof : Type 0 where
  pub siblings : List Hash256
  pub directions : List Bool

abbrev pub join : MerkleProof → MerkleProof → MerkleProof
join p q = record { siblings = p.siblings ++ q.siblings; directions = p.directions ++ q.directions }

abbrev pub empty_proof : MerkleProof
empty_proof = record { siblings = []; directions = [] }

abbrev pub entry : Hash256 → Bool → MerkleProof
entry s d = record { siblings = s ∷ []; directions = d ∷ [] }

-- What the loop over one level pushes; `i` is the index of the first node of the list.
unfoldable pub level_proof : ℕ → ℕ → List Hash256 → MerkleProof
level_proof idx i [] = empty_proof
level_proof idx i (a ∷ []) = if i == idx then entry a (not (i == idx)) else empty_proof
level_proof idx i (a ∷ b ∷ rest) =
    let more = level_proof idx (i + 2) rest in
    if i == idx || (i + 1) == idx
    then join (entry (if i == idx then b else a) (not (i == idx))) more
    else more

unfoldable pub proof_loop : ℕ → List Hash256 → ℕ → MerkleProof
proof_loop zero cur idx = empty_proof
proof_loop (suc fuel) cur idx =
    let rest = join (level_proof idx 0 cur) (proof_loop fuel (next_level cur) (idx / 2)) in
    if leb (length cur) 1 then empty_proof else rest

unfoldable pub merkle_proof : List Hash256 → ℕ → MerkleProof
unfolding proof_loop level_proof
merkle_proof leaves index =
    if leb (length leaves) index then empty_proof else proof_loop (length leaves) leaves index

-- The loop over the siblings. A proof has as many directions as siblings; where one is missing the
-- source reads past the end of the vector, and the model takes `false`.
unfoldable pub climb : Hash256 → List Hash256 → List Bool → Hash256
climb cur [] ds = cur
climb cur (s ∷ ss) [] = climb (combine cur s) ss []
climb cur (s ∷ ss) (true ∷ ds) = climb (combine s cur) ss ds
climb cur (s ∷ ss) (false ∷ ds) = climb (combine cur s) ss ds

unfoldable pub merkle_verify : Hash256 → Hash256 → MerkleProof → Bool
merkle_verify root leaf proof = bytes_eq (climb leaf proof.siblings proof.directions) root
