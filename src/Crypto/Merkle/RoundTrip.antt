-- ===== src/Crypto/Merkle/RoundTrip.antt =====
-- `merkle_verify` accepts what `merkle_proof` builds.
use npchain.Base.{
  ℕ, zero, suc, ◌+◌, ◌/◌, ◌≤◌, ◌<◌, ◌≡◌, refl, ◌∙◌, Bool, true, false, List, [], ◌∷◌, ◌++◌, arith,
  length, get_or, leb, bytes_eq_refl, Bool-cases, inl, inr,
}
use native.Mathlib.Nat.{zero-add}
use npchain.Crypto.Hash.{Hash256, zero_hash}
use npchain.Crypto.Merkle.{
  combine, next_level, head_or, root_loop, merkle_root, empty_proof, entry, level_proof, proof_loop,
  merkle_proof, climb, merkle_verify,
}

abbrev node : List Hash256 → ℕ → Hash256
node cur i = get_or cur i zero_hash

-- Past its pair a level adds nothing to the proof.
level_proof_past : (idx i : ℕ) (cur : List Hash256) → idx < i → level_proof idx i cur ≡ empty_proof
unfolding level_proof
level_proof_past idx i [] h = refl
level_proof_past idx i (a ∷ []) h = ground arith
level_proof_past idx i (a ∷ b ∷ rest) h =
    ground (arith, level_proof_past idx (i + 2) rest (omega arith))

-- One level gives one entry, and a step up with it reaches the parent.
abbrev StepsUp : ℕ → ℕ → List Hash256 → Type 0
StepsUp i k cur =
    (s : Hash256) × (d : Bool) × (level_proof (i + k) i cur ≡ entry s d)
    × (climb (node cur k) (s ∷ []) (d ∷ []) ≡ node (next_level cur) (k / 2))

level_proof_step : (i k : ℕ) (cur : List Hash256) → k < length cur → StepsUp i k cur
unfolding level_proof climb next_level
level_proof_step i k [] h = absurd (omega arith)
level_proof_step i zero (a ∷ []) h = (a, false, ground arith, refl)
level_proof_step i (suc k) (a ∷ []) h = absurd (omega arith)
level_proof_step i zero (a ∷ b ∷ rest) h =
    (b, false, ground (arith, level_proof_past (i + 0) (i + 2) rest (omega arith)), refl)
level_proof_step i (suc zero) (a ∷ b ∷ rest) h =
    (a, true, ground (arith, level_proof_past (i + 1) (i + 2) rest (omega arith)), refl)
level_proof_step i (suc (suc k)) (a ∷ b ∷ rest) h =
    let (s, d, e, up) = level_proof_step (i + 2) k rest (omega arith) in
    let half : suc (suc k) / 2 ≡ suc (k / 2) = omega arith in
    let index : i + suc (suc k) ≡ i + 2 + k = omega arith in
    (s, d, rw index (ground (arith, e)), rw half up)

climb-append :
    (cur : Hash256) (ss ts : List Hash256) (ds es : List Bool)
    → length ss ≡ length ds
    → climb cur (ss ++ ts) (ds ++ es) ≡ climb (climb cur ss ds) ts es
unfolding climb
climb-append cur [] ts [] es h = refl
climb-append cur [] ts (d ∷ ds) es h = absurd (omega arith)
climb-append cur (s ∷ ss) ts [] es h = absurd (omega arith)
climb-append cur (s ∷ ss) ts (true ∷ ds) es h =
    climb-append (combine s cur) ss ts ds es (omega arith)
climb-append cur (s ∷ ss) ts (false ∷ ds) es h =
    climb-append (combine cur s) ss ts ds es (omega arith)

pub length-next_level : (cur : List Hash256) → length (next_level cur) ≡ (length cur + 1) / 2
unfolding next_level
length-next_level [] = omega arith
length-next_level (a ∷ []) = omega arith
length-next_level (a ∷ b ∷ rest) = omega (arith, length-next_level rest)

abbrev root_of : List Hash256 → Hash256
root_of cur = head_or cur zero_hash

last_level :
    (k : ℕ) (cur : List Hash256)
    → leb (length cur) 1 ≡ true
    → k < length cur
    → node cur k ≡ root_of cur
last_level k [] e h = absurd (omega arith)
last_level zero (a ∷ []) e h = refl
last_level (suc k) (a ∷ []) e h = absurd (omega arith)
last_level k (a ∷ b ∷ rest) e h = absurd (ground arith)

-- A proof of node `k` of a level climbs from that node to the head of the last level.
climb-proof_loop :
    (fuel k : ℕ) (cur : List Hash256)
    → length cur ≤ suc fuel
    → k < length cur
    → climb (node cur k) (proof_loop fuel cur k).siblings (proof_loop fuel cur k).directions
      ≡ root_of (root_loop fuel cur)
unfolding proof_loop root_loop
climb-proof_loop zero k [] b h = absurd (omega arith)
climb-proof_loop zero zero (a ∷ cur) b h = unfold climb in refl
climb-proof_loop zero (suc k) (a ∷ cur) b h = absurd (omega arith)
climb-proof_loop (suc fuel) k cur b h = elim (Bool-cases (leb (length cur) 1)) [
  | inl last ↦ rw last (unfold climb in last_level k cur last h)
  | inr more ↦
      let (s, d, e, up) = level_proof_step 0 k cur h in
      let rest = proof_loop fuel (next_level cur) (k / 2) in
      let e' : level_proof k 0 cur ≡ entry s d = rw zero-add at e in
      rw (more, e')
        (climb-append (node cur k) (s ∷ []) rest.siblings (d ∷ []) rest.directions refl
          ∙ rw up (
              climb-proof_loop fuel (k / 2) (next_level cur) (ground (arith, length-next_level cur))
                (ground (arith, length-next_level cur))))
]

-- For every list of leaves and every index in it, `merkle_verify` accepts the leaf at that index
-- with the proof that `merkle_proof` builds, under the root that `merkle_root` computes.
pub merkle_verify-merkle_proof :
    (leaves : List Hash256) (index : ℕ)
    → index < length leaves
    → merkle_verify (merkle_root leaves) (get_or leaves index zero_hash) (merkle_proof leaves index)
      ≡ true
unfolding merkle_verify merkle_root merkle_proof
merkle_verify-merkle_proof leaves index h =
    let inside : leb (length leaves) index ≡ false = ground arith in
    rw (inside, merkle_proof)
      (rw (climb-proof_loop (length leaves) index leaves (omega arith) h) (bytes_eq_refl _))
