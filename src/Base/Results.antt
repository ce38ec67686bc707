-- ===== src/Base/Results.antt =====
-- `do` blocks over `Option`: a step that fails ends the chain.
use mathlib.Core.Path.{◌≡◌, refl}
use mathlib.Core.Bool.{Bool, true, false}
use mathlib.Core.Option.{Option, none, some}

infixl 5 ◌>>=◌ ◌>>◌
abbrev pub ◌>>=◌ {ℓ κ} : {A : Type ℓ} {B : Type κ} → Option A → (A → Option B) → Option B
none >>= f = none
some a >>= f = f a

abbrev pub ◌>>◌ {ℓ} : {B : Type ℓ} → Option (Unit {0}) → Option B → Option B
m >> k = m >>= λ _. k

-- `if (!b) return false;`
abbrev pub require : Bool → Option (Unit {0})
require true = some tt
require false = none

abbrev pub is_some {ℓ} : {A : Type ℓ} → Option A → Bool
is_some none = false
is_some (some a) = true

-- The computation yields a value, and the value has the property.
abbrev pub Returns {ℓ} : {A : Type ℓ} → Option A → (A → Type 0) → Type 0
Returns none P = ⊥
Returns (some a) P = P a

-- `std::optional::value_or`
abbrev pub value_or {ℓ} : {A : Type ℓ} → A → Option A → A
value_or d none = d
value_or d (some a) = a

pub Returns-value_or {ℓ} :
    {A : Type ℓ} (d : A) (m : Option A) (P : A → Type 0) → Returns m P → m ≡ some (value_or d m)
Returns-value_or d none P h = elim h [ ]
Returns-value_or d (some a) P h = refl

pub Returns-bind {ℓ κ} :
    {A : Type ℓ} {B : Type κ} (m : Option A) (f : A → Option B) (P : A → Type 0) (Q : B → Type 0)
    → Returns m P
    → ((a : A) → P a → Returns (f a) Q)
    → Returns (m >>= f) Q
Returns-bind none f P Q h k = elim h [ ]
Returns-bind (some a) f P Q h k = k a h

-- If the computation yields a value, the value has the property.
abbrev pub Whenever {ℓ} : {A : Type ℓ} → Option A → (A → Type 0) → Type 0
Whenever none P = Unit {0}
Whenever (some a) P = P a

pub Whenever-bind {ℓ κ} :
    {A : Type ℓ} {B : Type κ} (m : Option A) (f : A → Option B) (P : A → Type 0) (Q : B → Type 0)
    → Whenever m P
    → ((a : A) → P a → Whenever (f a) Q)
    → Whenever (m >>= f) Q
Whenever-bind none f P Q h k = tt
Whenever-bind (some a) f P Q h k = k a h

pub Whenever-weaken {ℓ} :
    {A : Type ℓ} (m : Option A) (P Q : A → Type 0)
    → Whenever m P
    → ((a : A) → P a → Q a)
    → Whenever m Q
Whenever-weaken none P Q h k = tt
Whenever-weaken (some a) P Q h k = k a h
