-- ===== src/Base/Maps.antt =====
-- `std::map` and `std::unordered_map`: association lists, in the order of the keys.
use Prim.Native.Nat.{ℕ, ◌+◌}
use mathlib.Core.Path.{◌≡◌, refl, subst, sym, ◌∙◌}
use mathlib.Core.Logic.{inl, inr, ◌↔◌}
use mathlib.Core.Bool.{Bool, true}
use mathlib.Core.List.{List, [], ◌∷◌}
use mathlib.Core.Option.{Option, none, some}
use native.Mathlib.Omega.{arith}
use npchain.Base.Tests.{◌==◌, ==_iff, ltb, if◌then◌else◌, Option-cases}
use npchain.Base.Octets.{Bytes, bytes_eq, bytes_eq_refl, bytes_eq→eq, bytes_lt}

-- A type of keys: its equality and its order, as tests.
pub record Key (K : Type 0) : Type 0 where
  pub same : K → K → Bool
  pub before : K → K → Bool
  pub same_iff : (a b : K) → (same a b ≡ true) ↔ (a ≡ b)

pub bytes_eq_iff : (a b : Bytes) → (bytes_eq a b ≡ true) ↔ (a ≡ b)
bytes_eq_iff a b = (bytes_eq→eq a b, (λ e. subst (λ c. bytes_eq a c ≡ true) e (bytes_eq_refl a)))

instance abbrev pub nat_key : Key ℕ
nat_key = record { same = ◌==◌; before = ltb; same_iff = ==_iff }

instance abbrev pub bytes_key : Key Bytes
bytes_key = record { same = bytes_eq; before = bytes_lt; same_iff = bytes_eq_iff }

abbrev pub Dict : Type 0 → Type 0 → Type 0
Dict K V = List (K × V)

-- The weight of a missing value is 0.
abbrev pub weight : {V : Type 0} → (V → ℕ) → Option V → ℕ
weight f none = 0
weight f (some v) = f v

module _ {K V : Type 0} ⦃k : Key K⦄ where
  unfoldable pub find : K → Dict K V → Option V
  find a [] = none
  find a ((b, v) ∷ m) = let rest = find a m in if k.same b a then some v else rest

  unfoldable pub replace : K → V → Dict K V → Dict K V
  replace a v [] = []
  replace a v ((b, w) ∷ m) =
      let rest = replace a v m in if k.same b a then (b, v) ∷ m else (b, w) ∷ rest

  unfoldable pub place : K → V → Dict K V → Dict K V
  place a v [] = (a, v) ∷ []
  place a v ((b, w) ∷ m) =
      let rest = place a v m in if k.before a b then (a, v) ∷ (b, w) ∷ m else (b, w) ∷ rest

  -- m[a] = v
  unfoldable pub assign : K → V → Dict K V → Dict K V
  assign a v m = elim (find a m) [ none ↦ place a v m | some _ ↦ replace a v m ]

  -- m[a], the default where the key is missing
  unfoldable pub find_or : V → K → Dict K V → V
  find_or d a m = elim (find a m) [ none ↦ d | some v ↦ v ]

  unfoldable pub erase : K → Dict K V → Dict K V
  erase a [] = []
  erase a ((b, v) ∷ m) = let rest = erase a m in if k.same b a then m else (b, v) ∷ rest

  find-replace :
      (a b : K) (v w : V) (m : Dict K V)
      → find a m ≡ some w
      → find b (replace a v m) ≡ (if k.same a b then some v else find b m)
  unfolding find replace
  find-replace a b v w [] h = cc
  find-replace a b v w ((c, u) ∷ m) h =
      ground (arith, k.same_iff c a, k.same_iff c b, k.same_iff a b, find-replace a b v w m)

  find-place :
      (a b : K) (v : V) (m : Dict K V)
      → find a m ≡ none
      → find b (place a v m) ≡ (if k.same a b then some v else find b m)
  unfolding find place
  find-place a b v [] h = refl
  find-place a b v ((c, u) ∷ m) h =
      ground (arith, k.same_iff c a, k.same_iff c b, k.same_iff a b, find-place a b v m)

  pub find-assign :
      (a b : K) (v : V) (m : Dict K V)
      → find b (assign a v m) ≡ (if k.same a b then some v else find b m)
  unfolding assign find
  find-assign a b v m = elim (Option-cases (find a m)) [
    | inl e ↦ rw (e, assign) (find-place a b v m e)
    | inr (w, e) ↦ rw (e, assign) (find-replace a b v w m e)
  ]

  pub find-assign_self : (a : K) (v : V) (m : Dict K V) → find a (assign a v m) ≡ some v
  find-assign_self a v m = find-assign a a v m ∙ rw ((k.same_iff a a).1 refl)

  -- The sum of a weight over the entries.
  unfoldable pub total : (K → V → ℕ) → Dict K V → ℕ
  total f [] = 0
  total f ((b, v) ∷ m) = f b v + total f m

  total-replace :
      (f : K → V → ℕ) (a : K) (v w : V) (m : Dict K V)
      → find a m ≡ some w
      → total f (replace a v m) + f a w ≡ total f m + f a v
  unfolding total find replace
  total-replace f a v w [] h = cc
  total-replace f a v w ((c, u) ∷ m) h = ground (arith, k.same_iff c a, total-replace f a v w m)

  total-place :
      (f : K → V → ℕ) (a : K) (v : V) (m : Dict K V) → total f (place a v m) ≡ total f m + f a v
  unfolding total place
  total-place f a v [] = omega arith
  total-place f a v ((c, u) ∷ m) = ground (arith, total-place f a v m)

  pub total-assign :
      (f : K → V → ℕ) (a : K) (v : V) (m : Dict K V)
      → total f (assign a v m) + weight (f a) (find a m) ≡ total f m + f a v
  unfolding assign total
  total-assign f a v m = elim (Option-cases (find a m)) [
    | inl e ↦ rw (e, assign) (omega (arith, total-place f a v m))
    | inr (w, e) ↦ rw (e, assign) (total-replace f a v w m e)
  ]

  pub weight-find_or :
      (f : V → ℕ) (a : K) (d : V) (m : Dict K V) → f d ≡ 0 → weight f (find a m) ≡ f (find_or d a m)
  unfolding find_or
  weight-find_or f a d m e = elim (Option-cases (find a m)) [
    | inl h ↦ rw (h, find_or) (sym e)
    | inr (w, h) ↦ rw (h, find_or)
  ]

  pub find_or-assign :
      (d : V) (a b : K) (v : V) (m : Dict K V)
      → find_or d b (assign a v m) ≡ (if k.same a b then v else find_or d b m)
  unfolding find_or
  find_or-assign d a b v m = ground (arith, find-assign a b v m)
