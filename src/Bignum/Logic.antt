-- ===== src/Bignum/Logic.antt =====
-- The logical operations on extended integers of mindy/interp/num.c: `dylan_ei_ei_logior`,
-- `dylan_ei_ei_logxor`, `dylan_ei_ei_logand`, `dylan_ei_lognot` and `dylan_ei_logbitp`.
pub mod Bits
pub mod Laws
use gwydion_2_4_cleanup.Prelude.{
  ℕ, zero, suc, ◌+◌, ◌-◌, ◌*◌, ◌%◌, ◌/◌, List, [], ◌∷◌, Bool, true, false, ◌&&◌, ◌||◌, not, eqb,
  leb, if◌then◌else◌, ◌==◌, length, get_or, map,
}
use gwydion_2_4_cleanup.Prelude.Int.{ℤ, pos, negsuc}
use gwydion_2_4_cleanup.Bignum.Digits.{sign, pad}
use gwydion_2_4_cleanup.Bignum.Normal.{normalize_bignum}

-- `d & (1 << k)`, as a truth value.
unfoldable pub bit : ℕ → ℕ → Bool
bit zero d = d % 2 == 1
bit (suc k) d = bit k (d / 2)

abbrev pub bit_value : Bool → ℕ
bit_value b = if b then 1 else 0

-- C's `&`, `|` and `^` on the low `n` bits, each for its truth table `f`.
unfoldable pub bitwise : (Bool → Bool → Bool) → ℕ → ℕ → ℕ → ℕ
bitwise f zero a b = 0
bitwise f (suc n) a b = bit_value (f (a % 2 == 1) (b % 2 == 1)) + 2 * bitwise f n (a / 2) (b / 2)

abbrev pub xor : Bool → Bool → Bool
xor a b = not (eqb a b)

-- The two loops: both numbers while both last, then the longer one against the other's pad.
unfoldable pub logic_loop : (Bool → Bool → Bool) → ℕ → ℕ → List ℕ → List ℕ → List ℕ
logic_loop f pad1 pad2 [] [] = []
logic_loop f pad1 pad2 [] (y ∷ ys) = bitwise f 8 pad1 y ∷ logic_loop f pad1 pad2 [] ys
logic_loop f pad1 pad2 (x ∷ xs) [] = bitwise f 8 x pad2 ∷ logic_loop f pad1 pad2 xs []
logic_loop f pad1 pad2 (x ∷ xs) (y ∷ ys) = bitwise f 8 x y ∷ logic_loop f pad1 pad2 xs ys

unfoldable pub ei_logior : List ℕ → List ℕ → List ℕ
ei_logior x y = normalize_bignum (logic_loop (λ a b. a || b) (pad x) (pad y) x y)

unfoldable pub ei_logxor : List ℕ → List ℕ → List ℕ
ei_logxor x y = normalize_bignum (logic_loop xor (pad x) (pad y) x y)

unfoldable pub ei_logand : List ℕ → List ℕ → List ℕ
ei_logand x y = normalize_bignum (logic_loop (λ a b. a && b) (pad x) (pad y) x y)

-- `~digits[i]`, stored in a byte.
abbrev pub complement : ℕ → ℕ
complement d = 255 - d

unfoldable pub ei_lognot : List ℕ → List ℕ
ei_lognot x = normalize_bignum (map complement x)

unfoldable pub ei_logbitp : ℤ → List ℕ → Bool
ei_logbitp (negsuc i) x = false
ei_logbitp (pos i) x = if leb (length x) (i / 8) then sign x else bit (i % 8) (get_or x (i / 8) 0)
