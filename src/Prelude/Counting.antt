-- ===== src/Prelude/Counting.antt =====
-- How often a number is in a list.
use gwydion_2_4_cleanup.Prelude.Tests.{◌==◌, if◌then◌else◌}
use Prim.Native.Nat.{ℕ, suc, ◌+◌}
use mathlib.Core.Path.{◌≡◌}
use mathlib.Core.List.{List, [], ◌∷◌, ◌++◌}
use native.Mathlib.Omega.{arith}

abbrev pub count : ℕ → List ℕ → ℕ
count t [] = 0
count t (u ∷ us) = if t == u then suc (count t us) else count t us

pub count-append :
    (t u : ℕ) (us : List ℕ) → count t (us ++ u ∷ []) ≡ count t us + (if t == u then 1 else 0)
count-append t u [] = ground arith
count-append t u (v ∷ us) = ground (arith, count-append t u us)
