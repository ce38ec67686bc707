-- ===== src/Mining/Pool/First.antt =====
-- What the pool returns and counts.
use npchain.Base.{◌+◌, ◌%◌, ◌^◌, ◌≡◌, refl, true, Option, none, some, List, [], ◌∷◌, Bytes}
use npchain.Ponw.Engine.{Witness}
use npchain.Mining.Pool.{Stats, Race, finish, finish_all, mine}

-- The first witness of the threads.
abbrev pub first_witness : List (Bytes × Option Witness) → Option (Bytes × Witness)
first_witness [] = none
first_witness ((name, none) ∷ rest) = first_witness rest
first_witness ((name, some w) ∷ rest) = some (name, w)

-- A thread was first: its witness is returned and counted as a solution under its name; or there was
-- none, and the attempt counts as a timeout.
abbrev pub Outcome : Stats → Option (Bytes × Witness) → Option Witness × Stats → Type 0
Outcome before none (result, after) =
    (result ≡ none)
    × (after ≡ record before {
      attempts = (before.attempts + 1) % 2 ^ 64;
      timeouts = (before.timeouts + 1) % 2 ^ 64;
    })
Outcome before (some (name, w)) (result, after) =
    (result ≡ some w)
    × (after ≡ record before {
      attempts = (before.attempts + 1) % 2 ^ 64;
      solutions = (before.solutions + 1) % 2 ^ 64;
      last_solver = name;
    })

abbrev won : Option Witness → Stats → Race
won result stats = record { found = true; result = result; stats = stats }

finish_all-won :
    (result : Option Witness) (stats : Stats) (finishes : List (Bytes × Option Witness))
    → finish_all (won result stats) finishes ≡ won result stats
unfolding finish_all finish
finish_all-won result stats [] = refl
finish_all-won result stats ((name, none) ∷ rest) = finish_all-won result stats rest
finish_all-won result stats ((name, some w) ∷ rest) = finish_all-won result stats rest

-- Whatever the order in which the threads end: the pool returns the first witness, or nothing when
-- there is none. It counts an attempt, and either a solution with the name of that thread's solver
-- or a timeout, never both.
pub mine-Outcome :
    (stats : Stats) (finishes : List (Bytes × Option Witness))
    → Outcome stats (first_witness finishes) (mine stats finishes)
unfolding mine finish_all finish
mine-Outcome stats [] = (refl, refl)
mine-Outcome stats ((name, none) ∷ rest) = mine-Outcome stats rest
mine-Outcome stats ((name, some w) ∷ rest) =
    rw
      (finish_all-won (some w)
        (record stats { solutions = (stats.solutions + 1) % 2 ^ 64; last_solver = name }) rest)
      (refl, refl)
