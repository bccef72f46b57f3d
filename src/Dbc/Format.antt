-- ===== src/Dbc/Format.antt =====
-- What goes into a .dbc file (mindy/comp/literal.h, mindy/comp/fileops.h) and what comes out of it.
use gwydion_2_4_cleanup.Prelude.{ℕ, List, [], ◌∷◌, Bool, true, false, get_or}
use gwydion_2_4_cleanup.Prelude.Int.{ℤ}

-- The literals of `literal.h`. A symbol is its name, a float the number with the same bits; a list
-- that has a `tail` is a constructor of its own.
mutual
  pub data Literal : Type 0 where
    symbol_literal : List ℕ → Literal
    integer_literal : ℤ → Literal
    single_float_literal : ℕ → Literal
    double_float_literal : ℕ → Literal
    extended_float_literal : ℕ → Literal
    character_literal : ℕ → Literal
    string_literal : List ℕ → Literal
    list_literal : Literals → Literal
    dotted_list_literal : Literals → Literal → Literal
    vector_literal : Literals → Literal
    true_literal : Literal
    false_literal : Literal
    unbound_literal : Literal

  pub data Literals : Type 0 where
    no_literals : Literals
    literal_next : Literal → Literals → Literals

-- The objects that the loader makes of them; a symbol is the one that `symbol` of sym.c has for a
-- name.
mutual
  pub data Object : Type 0 where
    fixnum : ℤ → Object
    character : ℕ → Object
    single_float : ℕ → Object
    double_float : ℕ → Object
    extended_float : ℕ → Object
    byte_string : List ℕ → Object
    symbol_object : List ℕ → Object
    nil : Object
    pair : Object → Object → Object
    vector : Objects → Object
    true_object : Object
    false_object : Object
    unbound : Object

  pub data Objects : Type 0 where
    no_objects : Objects
    object_next : Object → Objects → Objects

-- The functions that the table `opcodes` of load.c holds; the eight for lists of known length differ
-- in the length, as do the nine for vectors, and `left_out` stands for those on code.
pub data Fop : Type 0 where
  fop_flame fop_header fop_store fop_short_ref fop_ref fop_false fop_true fop_unbound : Fop
  fop_signed_byte fop_signed_short fop_signed_int fop_signed_long fop_char : Fop
  fop_single_float fop_double_float fop_extended_float : Fop
  fop_short_string fop_string fop_short_symbol fop_symbol fop_nil : Fop
  fop_list : ℕ → Bool → Fop
  fop_listn : Bool → Fop
  fop_vector : ℕ → Fop
  fop_vectorn fop_left_out : Fop

abbrev pub opcode_table : List Fop
opcode_table =
    fop_flame
    ∷ fop_header
    ∷ fop_store
    ∷ fop_short_ref
    ∷ fop_ref
    ∷ fop_false
    ∷ fop_true
    ∷ fop_unbound
    ∷ fop_signed_byte
    ∷ fop_signed_short
    ∷ fop_signed_int
    ∷ fop_signed_long
    ∷ fop_char
    ∷ fop_single_float
    ∷ fop_double_float
    ∷ fop_extended_float
    ∷ fop_short_string
    ∷ fop_string
    ∷ fop_short_symbol
    ∷ fop_symbol
    ∷ fop_nil
    ∷ fop_list 1 false
    ∷ fop_list 2 false
    ∷ fop_list 3 false
    ∷ fop_list 4 false
    ∷ fop_list 5 false
    ∷ fop_list 6 false
    ∷ fop_list 7 false
    ∷ fop_list 8 false
    ∷ fop_listn false
    ∷ fop_list 1 true
    ∷ fop_list 2 true
    ∷ fop_list 3 true
    ∷ fop_list 4 true
    ∷ fop_list 5 true
    ∷ fop_flame
    ∷ fop_list 6 true
    ∷ fop_list 7 true
    ∷ fop_list 8 true
    ∷ fop_listn true
    ∷ fop_vector 0
    ∷ fop_vector 1
    ∷ fop_vector 2
    ∷ fop_vector 3
    ∷ fop_vector 4
    ∷ fop_vector 5
    ∷ fop_vector 6
    ∷ fop_vector 7
    ∷ fop_vector 8
    ∷ fop_vectorn
    ∷ []

-- `fop_left_out` stands for all operations from 50 on.
abbrev pub opcodes : ℕ → Fop
opcodes byte = get_or opcode_table byte fop_left_out

-- How a read ends: with a result, by `error`, by `lose`, by a read of memory that was never written,
-- by a write past the end of the table, or, in the model only, in what is left out or without fuel.
pub data Read {ℓ} (A : Type ℓ) : Type ℓ where
  ok : A → Read A
  dylan_error lost unset overrun left_out no_fuel : Read A

infixl 5 ◌>>=◌
abbrev pub ◌>>=◌ {ℓ κ} : {A : Type ℓ} {B : Type κ} → Read A → (A → Read B) → Read B
ok a >>= f = f a
dylan_error >>= f = dylan_error
lost >>= f = lost
unset >>= f = unset
overrun >>= f = overrun
left_out >>= f = left_out
no_fuel >>= f = no_fuel
