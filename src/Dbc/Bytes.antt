-- ===== src/Dbc/Bytes.antt =====
-- Numbers as bytes in a .dbc file (mindy/comp/dump.c, mindy/interp/load.c): a machine's own order
-- when they are dumped, and turned round where it is not the reader's.
use gwydion_2_4_cleanup.Prelude.{reversed, reversed_twice, length-reversed}
use gwydion_2_4_cleanup.Prelude.{
  ℕ, zero, suc, ◌+◌, ◌-◌, ◌*◌, ◌/◌, ◌%◌, ◌^◌, ◌<◌, ◌≡◌, refl, ap, ◌∙◌, List, [], ◌∷◌, Bool, true,
  false, ltb, eqb, not, if◌then◌else◌, length, arith,
}
use native.Mathlib.Nat.{mod-lt, mod-eq_of_lt, pow-succ'}
use gwydion_2_4_cleanup.Prelude.Int.{ℤ, pos, negsuc}

-- The `n` bytes of a number, the lowest first.
abbrev pub low_bytes : ℕ → ℕ → List ℕ
low_bytes zero v = []
low_bytes (suc n) v = v % 256 ∷ low_bytes n (v / 256)

abbrev pub of_bytes : List ℕ → ℕ
of_bytes [] = 0
of_bytes (b ∷ bs) = b + 256 * of_bytes bs

-- A number of `n` bytes in the memory of a machine that has the highest byte first, or last.
abbrev pub in_memory : Bool → ℕ → ℕ → List ℕ
in_memory big n v = if big then reversed (low_bytes n v) else low_bytes n v

abbrev pub of_memory : Bool → List ℕ → ℕ
of_memory big bs = of_bytes (if big then reversed bs else bs)

-- A signed number in 2k values, as the unsigned number with the same bits, and back.
abbrev pub unsigned : ℕ → ℤ → ℕ
unsigned k (pos n) = n % (2 * k)
unsigned k (negsuc n) = 2 * k - 1 - n % (2 * k)

abbrev pub signed : ℕ → ℕ → ℤ
signed k n = if ltb n k then pos n else negsuc (2 * k - n - 1)

abbrev pub InRange : ℕ → ℤ → Type 0
InRange k (pos n) = n < k
InRange k (negsuc n) = n < k

length-low_bytes : (n v : ℕ) → length (low_bytes n v) ≡ n
length-low_bytes zero v = refl
length-low_bytes (suc n) v = ap suc (length-low_bytes n (v / 256))

pub length-in_memory : (big : Bool) (n v : ℕ) → length (in_memory big n v) ≡ n
length-in_memory true n v = length-reversed (low_bytes n v) ∙ length-low_bytes n v
length-in_memory false n v = length-low_bytes n v

pub of_bytes-low_bytes : (n v : ℕ) → v < 256 ^ n → of_bytes (low_bytes n v) ≡ v
of_bytes-low_bytes zero v h = omega arith
of_bytes-low_bytes (suc n) v h =
    omega (arith, of_bytes-low_bytes n (v / 256) (omega (arith, pow-succ' 256 n)))

-- What the reader has in its memory once it has turned the bytes round, or has not.
pub of_memory-in_memory :
    (writer reader : Bool) (n v : ℕ)
    → v < 256 ^ n
    → of_memory reader
        (if not (eqb writer reader) then reversed (in_memory writer n v) else in_memory writer n v)
      ≡ v
of_memory-in_memory true true n v h =
    ap of_bytes (reversed_twice (low_bytes n v)) ∙ of_bytes-low_bytes n v h
of_memory-in_memory true false n v h =
    ap of_bytes (reversed_twice (low_bytes n v)) ∙ of_bytes-low_bytes n v h
of_memory-in_memory false true n v h =
    ap of_bytes (reversed_twice (low_bytes n v)) ∙ of_bytes-low_bytes n v h
of_memory-in_memory false false n v h = of_bytes-low_bytes n v h

pub unsigned_bound : (k : ℕ) (v : ℤ) → 0 < k → unsigned k v < 2 * k
unsigned_bound k (pos n) h = mod-lt n (omega arith)
unsigned_bound k (negsuc n) h = omega arith

pub signed-unsigned : (k : ℕ) (v : ℤ) → InRange k v → signed k (unsigned k v) ≡ v
signed-unsigned k (pos n) h = rw (mod-eq_of_lt {n = n} {m = 2 * k} (omega arith)) (ground arith)
signed-unsigned k (negsuc n) h = rw (mod-eq_of_lt {n = n} {m = 2 * k} (omega arith)) (ground arith)
