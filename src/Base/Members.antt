-- ===== src/Base/Members.antt =====
-- Membership in a list of numbers, as a test and as predicates by recursion.
use Prim.Native.Nat.{ℕ, zero, suc, ◌<◌}
use mathlib.Core.Path.{◌≡◌, refl}
use mathlib.Core.Logic.{◌≢◌, ◌⊎◌}
use mathlib.Core.Bool.{Bool, false, ◌||◌}
use mathlib.Core.List.{List, [], ◌∷◌}
use native.Mathlib.Omega.{arith}
use npchain.Base.Tests.{◌==◌}
use npchain.Base.Lists.{All, All-take, length, get_or, set, take}

abbrev pub Any {ℓ} : {A : Type ℓ} → (A → Type 0) → List A → Type 0
Any P [] = ⊥
Any P (x ∷ xs) = P x ⊎ Any P xs

unfoldable pub contains : List ℕ → ℕ → Bool
contains [] a = false
contains (x ∷ xs) a = let rest = contains xs a in x == a || rest

abbrev pub NotIn : ℕ → List ℕ → Type 0
NotIn a xs = All (λ x. x ≢ a) xs

abbrev pub Distinct : List ℕ → Type 0
Distinct [] = Unit {0}
Distinct (x ∷ xs) = NotIn x xs × Distinct xs

pub NotIn-contains : (a : ℕ) (xs : List ℕ) → contains xs a ≡ false → NotIn a xs
unfolding contains
NotIn-contains a [] h = tt
NotIn-contains a (x ∷ xs) h = ((λ e. ground arith), NotIn-contains a xs (ground arith))

pub contains-NotIn : (a : ℕ) (xs : List ℕ) → NotIn a xs → contains xs a ≡ false
unfolding contains
contains-NotIn a [] h = refl
contains-NotIn a (x ∷ xs) (ne, h) = ground (arith, contains-NotIn a xs h)

pub get_or-set {ℓ} :
    {A : Type ℓ} (xs : List A) (i j : ℕ) (v d : A)
    → i < length xs
    → (i ≡ j → get_or (set xs i v) j d ≡ v) × (i ≢ j → get_or (set xs i v) j d ≡ get_or xs j d)
get_or-set [] i j v d h = absurd (omega arith)
get_or-set (x ∷ xs) zero zero v d h = ((λ e. refl), (λ ne. absurd (ne refl)))
get_or-set (x ∷ xs) zero (suc j) v d h = ((λ e. absurd (omega arith)), (λ ne. refl))
get_or-set (x ∷ xs) (suc i) zero v d h = ((λ e. absurd (omega arith)), (λ ne. refl))
get_or-set (x ∷ xs) (suc i) (suc j) v d h =
    let (hit, miss) = get_or-set xs i j v d (omega arith) in
    ((λ e. hit (omega arith)), (λ ne. miss (omega arith)))

pub Distinct-take : (n : ℕ) (xs : List ℕ) → Distinct xs → Distinct (take n xs)
Distinct-take zero xs h = tt
Distinct-take (suc n) [] h = tt
Distinct-take (suc n) (x ∷ xs) (apart, h) = (All-take (λ y. y ≢ x) n xs apart, Distinct-take n xs h)
