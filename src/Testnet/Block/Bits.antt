-- ===== src/Testnet/Block/Bits.antt =====
-- The witness as bits of bytes: the packing of `block_to_wire` and `save_to_disk`, and its inverse
-- of `wire_to_block` and `load_from_disk`.
use Prim.Native.Nat.{bit_or}
use native.Mathlib.Nat.{zero-add, zero-div}
use npchain.Base.{
  ℕ, zero, suc, ◌+◌, ◌*◌, ◌/◌, ◌%◌, ◌^◌, ◌<◌, ◌≤◌, ◌≡◌, refl, ap, sym, subst, ◌∙◌, Bool, true,
  false, ◌&&◌, List, [], ◌∷◌, length, get_or, set, replicate, ltb, ◌==◌, if◌then◌else◌, Bytes,
  for_range, tabulate, arith, Bool-cases, inl, inr, length-set, length-replicate, get_or-set,
  ==_iff, all_below, all_below_sound, both, ltb→lt, IsByte, All,
}

-- if (i < witness.size() && witness[i]) wbits[i / 8] |= (1 << (i % 8));
unfoldable pub pack_bit : List Bool → ℕ → Bytes → Bytes
pack_bit witness i wbits =
    if ltb i (length witness) && get_or witness i false
    then set wbits (i / 8) (bit_or (get_or wbits (i / 8) 0) (2 ^ (i % 8)))
    else wbits

unfoldable pub pack_bits : ℕ → List Bool → Bytes
unfolding pack_bit for_range
pack_bits wsize witness = for_range wsize 0 (pack_bit witness) (replicate ((wsize + 7) / 8) 0)

unfoldable pub bit_at : Bytes → ℕ → Bool
bit_at wbits i = get_or wbits (i / 8) 0 / 2 ^ (i % 8) % 2 == 1

unfoldable pub unpack_bits : ℕ → Bytes → List Bool
unfolding bit_at tabulate
unpack_bits wsize wbits = tabulate wsize 0 (bit_at wbits)

-- Setting bit k of a byte leaves a byte, with bit k set and each other bit as it was.
abbrev set_bit_right : ℕ → ℕ → ℕ → Bool
set_bit_right x k m =
    ltb (bit_or x (2 ^ k)) 256
    && ((bit_or x (2 ^ k) / 2 ^ m % 2) == (if k == m then 1 else x / 2 ^ m % 2))

set_bit_table : all_below 256 (λ x. all_below 8 (λ k. all_below 8 (set_bit_right x k))) ≡ true
unfolding all_below
set_bit_table = refl

set_bit_right_all : (x k m : ℕ) → x < 256 → k < 8 → m < 8 → set_bit_right x k m ≡ true
set_bit_right_all x k m hx hk hm =
    all_below_sound 8 (set_bit_right x k) m
      (all_below_sound 8 (λ k'. all_below 8 (set_bit_right x k')) k
        (all_below_sound 256 (λ x'. all_below 8 (λ k'. all_below 8 (set_bit_right x' k'))) x
          set_bit_table hx)
        hk)
      hm

set_bit_lem :
    (x k m : ℕ)
    → x < 256
    → k < 8
    → m < 8
    → (bit_or x (2 ^ k) < 256)
      × (bit_or x (2 ^ k) / 2 ^ m % 2 ≡ (if k == m then 1 else x / 2 ^ m % 2))
set_bit_lem x k m hx hk hm =
    let t : set_bit_right x k m ≡ true = set_bit_right_all x k m hx hk hm in
    let (p, q) = both _ _ t in (ltb→lt _ _ p, (==_iff _ _).0 q)

-- After the bits below `i`: each bit of the buffer is that of the witness, or 0.
record Packed (witness : List Bool) (size i : ℕ) (ws : Bytes) : Type 0 where
  length_eq : length ws ≡ size
  bytes : All IsByte ws
  bits : (j : ℕ) → bit_at ws j ≡ (if ltb j i then get_or witness j false else false)

get_or-IsByte : (ws : Bytes) (i : ℕ) → All IsByte ws → get_or ws i 0 < 256
get_or-IsByte [] i h = omega arith
get_or-IsByte (w ∷ ws) zero h = h.0
get_or-IsByte (w ∷ ws) (suc i) h = get_or-IsByte ws i h.1

set-IsByte : (ws : Bytes) (i v : ℕ) → All IsByte ws → v < 256 → All IsByte (set ws i v)
set-IsByte [] i v h lt = tt
set-IsByte (w ∷ ws) zero v h lt = (lt, h.1)
set-IsByte (w ∷ ws) (suc i) v h lt = (h.0, set-IsByte ws i v h.1 lt)

missing_false : (w : List Bool) (i : ℕ) → length w ≤ i → get_or w i false ≡ false
missing_false [] i h = refl
missing_false (b ∷ w) zero h = absurd (omega arith)
missing_false (b ∷ w) (suc i) h = missing_false w i (omega arith)

-- Setting bit i sets it, and leaves each other bit.
bit_at-set :
    (ws : Bytes) (i j : ℕ)
    → All IsByte ws
    → i / 8 < length ws
    → bit_at (set ws (i / 8) (bit_or (get_or ws (i / 8) 0) (2 ^ (i % 8)))) j
      ≡ (if i == j then true else bit_at ws j)
unfolding bit_at
bit_at-set ws i j h lt =
    let v = bit_or (get_or ws (i / 8) 0) (2 ^ (i % 8)) in
    let (hit, miss) = get_or-set ws (i / 8) (j / 8) v 0 lt in
    let (_, bit) =
      set_bit_lem (get_or ws (i / 8) 0) (i % 8) (j % 8) (get_or-IsByte ws (i / 8) h) (omega arith)
        (omega arith) in
    elim (Bool-cases (i / 8 == j / 8)) [
      | inl e ↦
          let same : i / 8 ≡ j / 8 = ground arith in
          rw (hit same, sym same)
            (elim (Bool-cases (i % 8 == j % 8)) [
              | inl k ↦ ground (arith, bit)
              | inr k ↦ ground (arith, bit)
            ])
      | inr e ↦ rw (miss (λ s. ground arith)) (ground arith)
    ]

pack_bit-Packed :
    (w : List Bool) (size i : ℕ) (ws : Bytes)
    → i / 8 < size
    → Packed w size i ws
    → Packed w size (i + 1) (pack_bit w i ws)
unfolding pack_bit
pack_bit-Packed w size i ws lt h = elim (Bool-cases (ltb i (length w) && get_or w i false)) [
  | inl e ↦
      let v = bit_or (get_or ws (i / 8) 0) (2 ^ (i % 8)) in
      let bit : get_or w i false ≡ true = (both (ltb i (length w)) (get_or w i false) e).1 in
      rw e (record {
        length_eq = length-set ws (i / 8) v ∙ h.length_eq;
        bytes =
            set-IsByte ws (i / 8) v h.bytes
              (set_bit_lem (get_or ws (i / 8) 0) (i % 8) 0 (get_or-IsByte ws (i / 8) h.bytes)
                (omega arith) (omega arith)).0;
        bits = λ j.
            bit_at-set ws i j h.bytes (omega (arith, h.length_eq)) ∙ ground (arith, h.bits j, bit);
      })
  | inr e ↦
      let bit : get_or w i false ≡ false = elim (Bool-cases (ltb i (length w))) [
        | inl inside ↦ ground arith
        | inr outside ↦ missing_false w i (ground arith)
      ] in
      rw e (record {
        length_eq = h.length_eq;
        bytes = h.bytes;
        bits = λ j. h.bits j ∙ ground (arith, bit);
      })
]

pack_loop-Packed :
    (w : List Bool) (size n i : ℕ) (ws : Bytes)
    → n + i ≤ 8 * size
    → Packed w size i ws
    → Packed w size (n + i) (for_range n i (pack_bit w) ws)
unfolding for_range
pack_loop-Packed w size zero i ws lt h = subst (λ k. Packed w size k ws) (sym (zero-add i)) h
pack_loop-Packed w size (suc n) i ws lt h =
    let e : n + (i + 1) ≡ suc n + i = omega arith in
    subst (λ k. Packed w size k (for_range n (i + 1) (pack_bit w) (pack_bit w i ws))) e
      (pack_loop-Packed w size n (i + 1) (pack_bit w i ws) (omega arith)
        (pack_bit-Packed w size i ws (omega arith) h))

replicate_zero-IsByte : (n : ℕ) → All IsByte (replicate n 0)
replicate_zero-IsByte zero = tt
replicate_zero-IsByte (suc n) = (omega arith, replicate_zero-IsByte n)

get_or-replicate_zero : (n i : ℕ) → get_or {A = ℕ} (replicate n 0) i 0 ≡ 0
get_or-replicate_zero zero i = refl
get_or-replicate_zero (suc n) zero = refl
get_or-replicate_zero (suc n) (suc i) = get_or-replicate_zero n i

bit_at-zeros : (n j : ℕ) → bit_at (replicate n 0) j ≡ false
unfolding bit_at
bit_at-zeros n j = rw (get_or-replicate_zero n (j / 8)) (rw (zero-div (2 ^ (j % 8))))

nothing_Packed : (w : List Bool) (size : ℕ) → Packed w size 0 (replicate size 0)
nothing_Packed w size = record {
  length_eq = length-replicate size 0;
  bytes = replicate_zero-IsByte size;
  bits = λ j. bit_at-zeros size j ∙ ground arith;
}

pack_bits-Packed : (w : List Bool) (n : ℕ) → Packed w ((n + 7) / 8) (n + 0) (pack_bits n w)
unfolding pack_bits
pack_bits-Packed w n =
    pack_loop-Packed w ((n + 7) / 8) n 0 (replicate ((n + 7) / 8) 0) (omega arith)
      (nothing_Packed w ((n + 7) / 8))

pub length-pack_bits : (n : ℕ) (w : List Bool) → length (pack_bits n w) ≡ (n + 7) / 8
length-pack_bits n w = (pack_bits-Packed w n).length_eq

tabulate_list :
    (w : List Bool) (i : ℕ) (f : ℕ → Bool)
    → ((k : ℕ) → k < length w → f (k + i) ≡ get_or w k false)
    → tabulate (length w) i f ≡ w
unfolding tabulate
tabulate_list [] i f h = refl
tabulate_list (x ∷ w) i f h =
    let head : f i ≡ x = ap f (sym (zero-add i)) ∙ h 0 (omega arith) in
    let tail : tabulate (length w) (i + 1) f ≡ w =
      tabulate_list w (i + 1) f (λ k lt. ap f (omega arith) ∙ h (suc k) (omega arith)) in
    cc

-- Packing a witness and reading as many bits back yields the witness.
pub unpack_bits-pack_bits : (w : List Bool) → unpack_bits (length w) (pack_bits (length w) w) ≡ w
unfolding unpack_bits
unpack_bits-pack_bits w =
    tabulate_list w 0 (bit_at (pack_bits (length w) w))
      λ k lt. (pack_bits-Packed w (length w)).bits (k + 0) ∙ ground arith
