-- ===== src/Dbc/Literals.antt =====
-- What a dumped literal is loaded as, and which literals there are.
use gwydion_2_4_cleanup.Prelude.{ℕ, suc, ◌+◌, ◌^◌, ◌<◌, length}
use gwydion_2_4_cleanup.Fixnum.{IsFixnum}
use gwydion_2_4_cleanup.Dbc.Format.{
  Literal, symbol_literal, integer_literal, single_float_literal, double_float_literal,
  extended_float_literal, character_literal, string_literal, list_literal, dotted_list_literal,
  vector_literal, true_literal, false_literal, unbound_literal, Literals, no_literals, literal_next,
  Object, fixnum, character, single_float, double_float, extended_float, byte_string, symbol_object,
  nil, vector, true_object, false_object, unbound, Objects, no_objects, object_next,
}
use gwydion_2_4_cleanup.Dbc.Dump.{count}
use gwydion_2_4_cleanup.Dbc.Load.{pairs}

-- The object that a literal stands for.
unfoldable mutual
  pub loaded : Literal → Object
  loaded (symbol_literal name) = symbol_object name
  loaded (integer_literal value) = fixnum value
  loaded (single_float_literal bits) = single_float bits
  loaded (double_float_literal bits) = double_float bits
  loaded (extended_float_literal bits) = extended_float bits
  loaded (character_literal c) = character c
  loaded (string_literal str) = byte_string str
  loaded (list_literal parts) = pairs (loaded_parts parts) nil
  loaded (dotted_list_literal parts tail) = pairs (loaded_parts parts) (loaded tail)
  loaded (vector_literal parts) = vector (loaded_parts parts)
  loaded true_literal = true_object
  loaded false_literal = false_object
  loaded unbound_literal = unbound

  pub loaded_parts : Literals → Objects
  loaded_parts no_literals = no_objects
  loaded_parts (literal_next part next) = object_next (loaded part) (loaded_parts next)

-- Integers are fixnums, floats have their sizes, lengths are an `int`, and a list with a tail has a
-- part.
unfoldable mutual
  pub IsDumpable : Literal → Type 0
  IsDumpable (symbol_literal name) = length name < 2 ^ 31
  IsDumpable (integer_literal value) = IsFixnum value
  IsDumpable (single_float_literal bits) = bits < 256 ^ 4
  IsDumpable (double_float_literal bits) = bits < 256 ^ 8
  IsDumpable (extended_float_literal bits) = bits < 256 ^ 16
  IsDumpable (character_literal c) = c < 256
  IsDumpable (string_literal str) = length str < 2 ^ 31
  IsDumpable (list_literal parts) = (count parts < 2 ^ 31) × AreDumpable parts
  IsDumpable (dotted_list_literal parts tail) =
      (0 < count parts) × (count parts < 2 ^ 31) × AreDumpable parts × IsDumpable tail
  IsDumpable (vector_literal parts) = (count parts < 2 ^ 31) × AreDumpable parts
  IsDumpable true_literal = Unit
  IsDumpable false_literal = Unit
  IsDumpable unbound_literal = Unit

  pub AreDumpable : Literals → Type 0
  AreDumpable no_literals = Unit
  AreDumpable (literal_next part next) = IsDumpable part × AreDumpable next

-- Fuel that is enough to read a literal: as many as there are literals in it, and the rests of lists.
unfoldable mutual
  pub fuel_for : Literal → ℕ
  fuel_for (list_literal parts) = suc (fuel_for_parts parts)
  fuel_for (dotted_list_literal parts tail) = suc (fuel_for_parts parts + fuel_for tail)
  fuel_for (vector_literal parts) = suc (fuel_for_parts parts)
  fuel_for _ = 1

  pub fuel_for_parts : Literals → ℕ
  fuel_for_parts no_literals = 0
  fuel_for_parts (literal_next part next) = suc (fuel_for part + fuel_for_parts next)
