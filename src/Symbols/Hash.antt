-- ===== src/Symbols/Hash.antt =====
-- `hash_name` and `same_name` of mindy/interp/sym.c on the case of letters.
use gwydion_2_4_cleanup.Prelude.{
  ℕ, ◌≡◌, refl, ap, ◌∙◌, List, [], ◌∷◌, true, Bool, ◌&&◌, ◌==◌, arith,
}
use gwydion_2_4_cleanup.Bignum.Logic.{bitwise, xor}
use gwydion_2_4_cleanup.Symbols.{without_case, rotate, hash_from, hash_name, lower, same_name}

without_case-lower : (c d : ℕ) → lower c ≡ lower d → without_case c ≡ without_case d
without_case-lower c d h = ground arith

both : (a b : Bool) → (a && b) ≡ true → (a ≡ true) × (b ≡ true)
both a b h = ground arith

==-eq : (a b : ℕ) → (a == b) ≡ true → a ≡ b
==-eq a b h = ground arith

hash_from-eq :
    (x y : List ℕ) (hash : ℕ) → same_name x y ≡ true → hash_from hash x ≡ hash_from hash y
unfolding hash_from same_name
hash_from-eq [] [] hash h = refl
hash_from-eq [] (d ∷ y) hash h = cc
hash_from-eq (c ∷ x) [] hash h = cc
hash_from-eq (c ∷ x) (d ∷ y) hash h =
    let (p, q) = both (lower c == lower d) (same_name x y) h in
    hash_from-eq x y (bitwise xor 32 (rotate hash) (without_case c)) q
    ∙ ap (λ (k : ℕ). hash_from (bitwise xor 32 (rotate hash) k) y)
        (without_case-lower c d (==-eq (lower c) (lower d) p))

-- Names that are the same but for the case of letters have the same hash, so that the search for
-- one of them looks at the chain that holds the symbol of the other.
pub hash_name-eq : (x y : List ℕ) → same_name x y ≡ true → hash_name x ≡ hash_name y
unfolding hash_name
hash_name-eq x y h = hash_from-eq x y 0 h

pub same_name_refl : (x : List ℕ) → same_name x x ≡ true
unfolding same_name
same_name_refl [] = refl
same_name_refl (c ∷ x) = ground (arith, same_name_refl x)

pub same_name_sym : (x y : List ℕ) → same_name x y ≡ true → same_name y x ≡ true
unfolding same_name
same_name_sym [] [] h = refl
same_name_sym [] (d ∷ y) h = cc h
same_name_sym (c ∷ x) [] h = cc h
same_name_sym (c ∷ x) (d ∷ y) h = ground (arith, same_name_sym x y, h)

pub same_name_trans :
    (x y z : List ℕ) → same_name x y ≡ true → same_name y z ≡ true → same_name x z ≡ true
unfolding same_name
same_name_trans [] [] z h k = k
same_name_trans [] (d ∷ y) z h k = cc h
same_name_trans (c ∷ x) [] z h k = cc h
same_name_trans (c ∷ x) (d ∷ y) [] h k = cc k
same_name_trans (c ∷ x) (d ∷ y) (e ∷ z) h k = ground (arith, same_name_trans x y z, h, k)
