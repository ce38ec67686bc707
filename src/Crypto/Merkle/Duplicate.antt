-- ===== src/Crypto/Merkle/Duplicate.antt =====
-- The pairing of an odd last node with itself makes the root of two different leaf lists equal.
use npchain.Base.{
  ℕ, zero, suc, ◌*◌, ◌≤◌, ◌<◌, ◌≡◌, ◌≢◌, refl, sym, ap, ◌∙◌, List, [], ◌∷◌, ◌++◌, arith, length,
  length-append, leb, false,
}
use npchain.Crypto.Hash.{Hash256, zero_hash}
use npchain.Crypto.Merkle.{next_level, head_or, root_loop, merkle_root}
use npchain.Crypto.Merkle.RoundTrip.{length-next_level}

-- More rounds than needed change nothing.
root_loop_fuel :
    (m n : ℕ) (cur : List Hash256)
    → length cur ≤ suc m
    → length cur ≤ suc n
    → root_loop m cur ≡ root_loop n cur
unfolding root_loop
root_loop_fuel zero zero cur h k = refl
root_loop_fuel zero (suc n) cur h k = ground arith
root_loop_fuel (suc m) zero cur h k = ground arith
root_loop_fuel (suc m) (suc n) cur h k =
    ground (arith, root_loop_fuel m n (next_level cur), length-next_level cur)

next_level_duplicate :
    (n : ℕ) (front : List Hash256) (x : Hash256)
    → length front ≡ 2 * n
    → next_level (front ++ (x ∷ [])) ≡ next_level (front ++ (x ∷ x ∷ []))
unfolding next_level
next_level_duplicate n [] x h = refl
next_level_duplicate n (a ∷ []) x h = absurd (omega arith)
next_level_duplicate zero (a ∷ b ∷ front) x h = absurd (omega arith)
next_level_duplicate (suc n) (a ∷ b ∷ front) x h = cc (next_level_duplicate n front x (omega arith))

root_from_next :
    (m : ℕ) (cur : List Hash256)
    → 2 ≤ length cur
    → length (next_level cur) ≤ suc m
    → merkle_root cur ≡ head_or (root_loop m (next_level cur)) zero_hash
unfolding merkle_root
root_from_next m [] h b = absurd (omega arith)
root_from_next m (a ∷ []) h b = absurd (omega arith)
root_from_next m (a ∷ c ∷ rest) h b =
    let more : leb (suc (suc (length rest))) 1 ≡ false = ground arith in
    rw (more, root_loop)
      (ap (λ l. head_or l zero_hash)
        (root_loop_fuel (suc (length rest)) m (next_level (a ∷ c ∷ rest))
          (omega (arith, length-next_level (a ∷ c ∷ rest))) b))

-- `merkle_root` does not tell a list of three or more leaves of odd length from the same list with
-- its last leaf repeated: for every non-empty `front` of even length the two lists differ and have
-- the same root.
pub merkle_root_duplicate :
    (n : ℕ) (front : List Hash256) (x : Hash256)
    → 0 < n
    → length front ≡ 2 * n
    → ((front ++ (x ∷ [])) ≢ (front ++ (x ∷ x ∷ [])))
      × (merkle_root (front ++ (x ∷ [])) ≡ merkle_root (front ++ (x ∷ x ∷ [])))
merkle_root_duplicate n front x pos h = (
  (λ e. omega (arith, ap length e, length-append front (x ∷ []), length-append front (x ∷ x ∷ []))),
  root_from_next (2 * n) (front ++ (x ∷ [])) (omega (arith, length-append front (x ∷ [])))
        (omega (arith, length-next_level (front ++ (x ∷ [])), length-append front (x ∷ [])))
      ∙ ap (λ l. head_or (root_loop (2 * n) l) zero_hash) (next_level_duplicate n front x h)
      ∙ sym (
          root_from_next (2 * n) (front ++ (x ∷ x ∷ []))
            (omega (arith, length-append front (x ∷ x ∷ [])))
            (omega (
              arith,
              length-next_level (front ++ (x ∷ x ∷ [])),
              length-append front (x ∷ x ∷ []),
            ))),
)
