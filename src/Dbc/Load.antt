-- ===== src/Dbc/Load.antt =====
-- The loading of literals, mindy/interp/load.c. The file is the list of the bytes that are not read
-- yet, however they come into the buffer; `big` says whether the machine has the highest byte of a
-- number first.
use gwydion_2_4_cleanup.Prelude.{reversed}
use gwydion_2_4_cleanup.Prelude.{
  ℕ, zero, suc, ◌+◌, ◌*◌, ◌/◌, ◌^◌, List, [], ◌∷◌, Option, none, some, Bool, ◌==◌, leb, ltb, ◌||◌,
  not, if◌then◌else◌,
}
use gwydion_2_4_cleanup.Prelude.Int.{ℤ, pos, negsuc, eqb_ℤ, ◌+ℤ◌}
use gwydion_2_4_cleanup.Fixnum.{make_fixnum}
use gwydion_2_4_cleanup.Dbc.Bytes.{of_memory, signed}
use gwydion_2_4_cleanup.Dbc.Format.{
  Object, fixnum, character, single_float, double_float, extended_float, byte_string, symbol_object,
  nil, pair, vector, true_object, false_object, unbound, Objects, no_objects, object_next, Fop,
  fop_flame, fop_header, fop_store, fop_short_ref, fop_ref, fop_false, fop_true, fop_unbound,
  fop_signed_byte, fop_signed_short, fop_signed_int, fop_signed_long, fop_char, fop_single_float,
  fop_double_float, fop_extended_float, fop_short_string, fop_string, fop_short_symbol, fop_symbol,
  fop_nil, fop_list, fop_listn, fop_vector, fop_vectorn, fop_left_out, opcodes, Read, ok,
  dylan_error, lost, unset, overrun, left_out, no_fuel, ◌>>=◌,
}

-- `struct load_info`; `table` has `table_size` places, `none` where nothing was stored.
pub record Info : Type 0 where
  pub input : List ℕ
  pub table : ℕ → Option Object
  pub table_size : ℕ
  pub next_handle : ℕ
  pub swap_bytes : Bool

-- `read_bytes`; the end of the file is an error.
unfoldable pub read_bytes : ℕ → Info → Read (List ℕ × Info)
read_bytes zero s = ok ([], s)
read_bytes (suc n) s = elim s.input [
  | [] ↦ dylan_error
  | (b ∷ bs) ↦ read_bytes n (record s { input = bs }) >>= (λ r. ok (b ∷ r.0, r.1))
]

-- `read_ordered_bytes`, as the number that is in the memory then.
unfoldable pub read_ordered_bytes : Bool → ℕ → Info → Read (ℕ × Info)
read_ordered_bytes big n s =
    read_bytes n s >>= (λ r. ok (of_memory big (if s.swap_bytes then reversed r.0 else r.0), r.1))

unfoldable pub read_byte : Info → Read (ℕ × Info)
read_byte s = elim s.input [ [] ↦ dylan_error | (b ∷ bs) ↦ ok (b, record s { input = bs }) ]

abbrev pub read_ushort : Bool → Info → Read (ℕ × Info)
read_ushort big s = read_ordered_bytes big 2 s

-- A signed number of `n` bytes, in 2k values.
abbrev pub read_signed : ℕ → ℕ → Bool → Info → Read (ℤ × Info)
read_signed n k big s = read_ordered_bytes big n s >>= (λ r. ok (signed k r.0, r.1))

abbrev pub read_short : Bool → Info → Read (ℤ × Info)
read_short big s = read_signed 2 (2 ^ 15) big s

abbrev pub read_int : Bool → Info → Read (ℤ × Info)
read_int big s = read_signed 4 (2 ^ 31) big s

abbrev pub read_long : Bool → Info → Read (ℤ × Info)
read_long big s = read_signed 8 (2 ^ 63) big s

unfoldable pub check_size : ℕ → Info → Read Info
check_size desired s = read_byte s >>= (λ r. if r.0 == desired then ok r.1 else dylan_error)

-- `fop_header`, for the version 4.1 of the file and the sizes of a machine of 64 bits.
unfoldable pub read_header : Bool → Info → Read (Object × Info)
read_header big s = read_byte s >>= (λ major. read_byte major.1 >>= (λ minor.
    if ltb major.0 4 || (ltb 4 major.0 || ltb 1 minor.0)
    then dylan_error
    else check_size 2 minor.1
      >>= check_size 4
      >>= check_size 8
      >>= check_size 4
      >>= check_size 8
      >>= check_size 16
      >>= read_bytes 2
      >>= (λ x. read_int big (record (x.1) { swap_bytes = not (of_memory big x.0 == 1) }))
      >>= (λ magic.
          if eqb_ℤ magic.0 (pos 1853397694) then ok (false_object, magic.1) else dylan_error)))

-- The loop of `store`, which needs no more rounds than the handle is large, and the whole choice of
-- a size.
unfoldable pub doubled : ℕ → ℕ → ℕ → ℕ
doubled zero handle size = size
doubled (suc fuel) handle size =
    let more = doubled fuel handle (size * 2) in if leb size handle then more else size

unfoldable pub new_size : ℕ → ℕ → ℕ
new_size handle size =
    if ltb handle size
    then size
    else if ltb handle 16384
    then doubled (suc handle) handle (if size == 0 then 1024 else size)
    else (handle + 16383) / 16384 * 16384

unfoldable pub store : Object → ℕ → Info → Read (Object × Info)
store value handle s =
    let size = new_size handle s.table_size in
    if ltb handle size
    then ok (
      value,
      record s {
        table = λ other. if handle == other then some value else s.table other;
        table_size = size;
      },
    )
    else overrun

-- `next_handle`, and then `store`.
unfoldable pub store_next : Object → Info → Read (Object × Info)
store_next value s = store value s.next_handle (record s { next_handle = s.next_handle + 1 })

abbrev pub stored_at : Option Object → Info → Read (Object × Info)
stored_at none s = unset
stored_at (some value) s = ok (value, s)

unfoldable pub ref : ℕ → Info → Read (Object × Info)
ref index s = if ltb index s.table_size then stored_at (s.table index) s else lost

-- `ref` of an `int`.
abbrev pub ref_int : ℤ → Info → Read (Object × Info)
ref_int (pos index) s = ref index s
ref_int (negsuc n) s = lost

-- What follows a length that was read as an `int`; a negative one is left out.
abbrev pub with_length {ℓ} : {A : Type ℓ} → ℤ → (ℕ → Read A) → Read A
with_length (pos n) f = f n
with_length (negsuc n) f = left_out

-- `fop_short_string` and `fop_string`, as the characters.
unfoldable pub short_string : Info → Read (List ℕ × Info)
short_string s = read_byte s >>= (λ n. read_bytes n.0 n.1)

unfoldable pub long_string : Bool → Info → Read (List ℕ × Info)
long_string big s = read_int big s >>= (λ n. with_length n.0 (λ len. read_bytes len n.1))

-- The loop of `read_list` and `read_vector`, where `thing` is `read_thing`.
unfoldable pub read_things : (Info → Read (Object × Info)) → ℕ → Info → Read (Objects × Info)
read_things thing zero s = ok (no_objects, s)
read_things thing (suc len) s =
    thing s
    >>= (λ new. read_things thing len new.1 >>= (λ rest. ok (object_next new.0 rest.0, rest.1)))

abbrev pub pairs : Objects → Object → Object
pairs no_objects tail = tail
pairs (object_next new rest) tail = pair new (pairs rest tail)

unfoldable pub read_list : (Info → Read (Object × Info)) → ℕ → Bool → Info → Read (Object × Info)
read_list thing len dotted s = read_things thing len s >>= (λ parts.
    (if dotted then thing parts.1 else ok (nil, parts.1))
    >>= (λ tail. ok (pairs parts.0 tail.0, tail.1)))

unfoldable pub read_vector : (Info → Read (Object × Info)) → ℕ → Info → Read (Object × Info)
read_vector thing len s = read_things thing len s >>= (λ parts. ok (vector parts.0, parts.1))

-- The length that `fop_vectorn` reads.
unfoldable pub vector_length :
    Bool → (ℕ → Info → Read (Object × Info)) → Info → Read (Object × Info)
vector_length big then_read s = read_byte s >>= (λ len.
    if len.0 == 255
    then read_int big len.1 >>= (λ n. with_length (n.0 +ℤ pos 65799) (λ m. then_read m n.1))
    else if len.0 == 254
    then read_ushort big len.1 >>= (λ n. then_read (n.0 + 263) n.1)
    else then_read (len.0 + 9) len.1)

-- The functions of the table, by what they are given: `thing` is `read_thing`.
unfoldable pub perform : Bool → (Info → Read (Object × Info)) → Fop → Info → Read (Object × Info)
perform big thing fop_flame s = lost
perform big thing fop_header s = read_header big s
perform big thing fop_store s =
    thing (record s { next_handle = s.next_handle + 1 }) >>= (λ r. store r.0 s.next_handle r.1)
perform big thing fop_short_ref s = read_ushort big s >>= (λ index. ref index.0 index.1)
perform big thing fop_ref s = read_int big s >>= (λ index. ref_int index.0 index.1)
perform big thing fop_false s = ok (false_object, s)
perform big thing fop_true s = ok (true_object, s)
perform big thing fop_unbound s = ok (unbound, s)
perform big thing fop_signed_byte s =
    read_byte s >>= (λ r. ok (fixnum (make_fixnum (signed (2 ^ 7) r.0)), r.1))
perform big thing fop_signed_short s =
    read_short big s >>= (λ r. ok (fixnum (make_fixnum r.0), r.1))
perform big thing fop_signed_int s = read_int big s >>= (λ r. ok (fixnum (make_fixnum r.0), r.1))
perform big thing fop_signed_long s = read_long big s >>= (λ r. ok (fixnum (make_fixnum r.0), r.1))
perform big thing fop_char s = read_byte s >>= (λ r. ok (character r.0, r.1))
perform big thing fop_single_float s =
    read_ordered_bytes big 4 s >>= (λ r. ok (single_float r.0, r.1))
perform big thing fop_double_float s =
    read_ordered_bytes big 8 s >>= (λ r. ok (double_float r.0, r.1))
perform big thing fop_extended_float s =
    read_ordered_bytes big 16 s >>= (λ r. ok (extended_float r.0, r.1))
perform big thing fop_short_string s = short_string s >>= (λ r. ok (byte_string r.0, r.1))
perform big thing fop_string s = long_string big s >>= (λ r. ok (byte_string r.0, r.1))
perform big thing fop_short_symbol s = short_string s >>= (λ r. store_next (symbol_object r.0) r.1)
perform big thing fop_symbol s = long_string big s >>= (λ r. store_next (symbol_object r.0) r.1)
perform big thing fop_nil s = ok (nil, s)
perform big thing (fop_list len dotted) s = read_list thing len dotted s
perform big thing (fop_listn dotted) s =
    read_byte s >>= (λ len. read_list thing (len.0 + 9) dotted len.1)
perform big thing (fop_vector len) s = read_vector thing len s
perform big thing fop_vectorn s = vector_length big (read_vector thing) s
perform big thing fop_left_out s = left_out

-- `read_thing`, with fuel for the depth of what is read.
unfoldable pub read_thing : ℕ → Bool → Info → Read (Object × Info)
read_thing zero big s = no_fuel
read_thing (suc fuel) big s =
    read_byte s >>= (λ byte. perform big (read_thing fuel big) (opcodes byte.0) byte.1)
