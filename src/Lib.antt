-- ===== src/Lib.antt =====
-- Mindy, the byte-code interpreter of Gwydion Dylan (mindy/), and of it the routines in C under
-- mindy/interp on which the rest stands: the integers, the types, the symbol table and the
-- threads.
--
-- The parts. num.c and num.h keep integers in two forms: fixnums, in a pointer's bits, and
-- bignums ("extended integers"), lists of byte digits in two's complement. type.c decides
-- instances, subtypes and overlap of types, and builds limited integer types and unions; it
-- compares numbers by num.c, and is what generic function dispatch (func.c) relies on. class.c
-- orders a class and the classes above it in a list, from which type.c decides subclasses. sym.c
-- interns names. thread.c schedules the threads that the byte codes run in, with the locks and
-- events they wait for. dump.c of the compiler (mindy/comp) writes literals into object files,
-- from which load.c of the interpreter reads them.
--
-- The files.
--   Prelude: the names that the others share. Prelude/Int has integers over the native ℕ.
--   Bignum: mindy/interp/num.c, "Extended Integer Support". A bignum is the list of its digits,
--     the lowest first; its length is the list's. Digits has SIGN, PAD and ZEROP, and
--     `bignum_int`, the integer that a bignum stands for. Normal is normalize_bignum, Make is
--     make_bignum and bignum_value, Sum is add_bignums, subtract_bignums and negate_bignum,
--     Compare is compare_bignums, Product is multiply_bignums, DigitDivision is divide_by_digit,
--     Print is print_bignum, and Logic is dylan_ei_ei_logior, dylan_ei_ei_logxor,
--     dylan_ei_ei_logand, dylan_ei_lognot and dylan_ei_logbitp.
--   Fixnum: the make_fixnum of mindy/interp/num.h, and the dylan_fi functions of num.c on sums and
--     divisions. A fixnum is the integer that fixnum_value gives.
--   Types: mindy/interp/type.c. World has objects, types and what the running system supplies;
--     Instance is instancep (and idp of num.c), Subtype is subtypep, Overlap is overlapp, Limited
--     has the limited integer types, and Union is type_union and restrict_type.
--   Classes: mindy/interp/class.c, slow_compute_cpl and what it calls. Order says which lists are
--     precedence lists; Sums counts edges; Graphs and Building are on compute_cpd, Choosing on
--     tie_breaker, Sorting and Rounds on the loop, and Precedence on the whole. Setup is compute_cpl
--     and setup_class_supers; Hierarchies is on lists in a hierarchy that grows, Invariant says
--     which classes are well entered, Checks is on the tests of setup_class_supers, Entering on
--     what it changes, Endings on the whole, and Subclassing on what type.c reads.
--   Pairs: mindy/interp/list.c: pair, dylan_list, the setters, nreverse, length and dylan_list_size.
--     Sizes is on dylan_list_size, Reversing on nreverse and length, and Making on pair and
--     dylan_list.
--   Symbols: mindy/interp/sym.c: init_symbol_tables, hash_name, same_name, rehash_table and
--     symbol. Hash is on names, Rehash and Chains on where the symbols are, Filing on tables as symbol
--     finds them, and Interning on symbol.
--   Threads: mindy/interp/thread.c, each function under its name. Store is the state; Invariant
--     says which states are well formed, and Invariant/Moves when a change of one thread keeps
--     them so. Waking (wakeup_thread), Leaving (suspend_thread), Locks, Events, Control (making,
--     restarting, choosing), Stopping (stopping, the debugger), Removing (a queue's first) and
--     Killing (with Detaching, on taking a thread out of its queue) are on the single calls, Escapes
--     and Escaping on escape frames, Steps on their runs,
--     Fairness on thread_pick_next, Failing on lose, and Faults on states that the
--     calls do not expect.
--   Dbc: object files, mindy/comp/dump.c and mindy/interp/load.c. Format has the literals of
--     literal.h, the objects they are loaded as and the table of operations; Bytes the numbers in
--     two byte orders; Dump the dump functions; Load the read and fop functions. Reading, Atoms,
--     Table, Symbols, Headers, Lists and Runs are on the numbers, the numbers and strings, the
--     growth of the table, the handles, and the operations before lists and vectors; Sequence puts
--     dumpers and loaders one after another; Literals says what a literal stands for, Leaves is on
--     literals without parts, RoundTrip on all literals, and Opening on the header.
--   Tests: the theorems at concrete inputs.
--
-- State and representation. The routines on bignums write into fresh memory, so that they are
-- functions of the digits. A `long` is of 64 bits and an `unsigned` of 32. The tables of functions
-- that subtypep and overlapp index by the kinds of two types are written out as clauses. The
-- symbol table is passed on as a value. The class precedence lists, the lists of subclasses, and
-- the tests of addresses are fields of `World`, and `IsHierarchy` says what is asked of them: the
-- lists are reflexive and transitive, every class below another is among its subclasses, and types
-- at one address are equal. Every class has a list: the error for a class before it is initialized
-- is left out. Whether the class of a class below another is below that one's class is not asked of
-- the classes, since class.c lets a static class stand below one that is not, but is a condition on
-- the subclass types where it matters. The caching of
-- class_instancep keeps results of the same call and is left out.
--
-- A class is a number, its address, and the classes are a function from these. A `struct cpd` is
-- the number of its class, and the lists `after` and the counts are functions of it; its field
-- `supers`, which is filled and never read, is left out. error, lose and a failed assert are
-- outcomes; for setup_class_supers the classes at that moment are kept.
--
-- In list.c an object is a number, its address, and the heads and tails of the pairs are a memory
-- that is passed on. A new pair comes with its address, and the test that an object is a pair is an
-- argument.
--
-- In thread.c a thread, a lock or an event is a number, its address, and the state is passed on.
-- The number of a thread stands for its thread_obj, and for its struct thread as long as there
-- is one: thread_kill frees it, and what would read it then uses a null pointer. The circle that
-- next and prev make is a list that begins at Runnable, a queue is a list. A call that ends in
-- mindy_pause returns its state. lose, error and the use of a null pointer are outcomes.
--
-- In a file, a float is the number with the same bits. The loader's file is the list of the bytes
-- that are not read yet, so that its buffer is not seen; the bytes of a number are in the order of
-- the writer's memory, and the byte order of a machine is an argument. The places of the table
-- that were never written have no value, and to read one, or to write past the end, is an outcome. The
-- lose of dump_literal for a dotted list without parts is left out: such literals are not among those
-- of the round trip.
--
-- Fuel. compute_cpd has fuel for the depth of the hierarchy, for which a rank that falls from a
-- class to its superclasses is enough. The loops of list.c have fuel for the pairs that they
-- pass. read_thing has fuel for the nesting of what it reads, for which the number of literals
-- and parts is enough. The search of remove_from_lock and remove_from_event has fuel for the
-- threads it looks at. make_bignum has its eight digits as fuel: to need more is to write behind
-- the buffer. print_bignum has a bound on the bits of the magnitude, one digit being printed at
-- each call. type_union has one for each call and merge_with_union one for each member, since
-- each round takes one away.
--
-- Not modelled: the operations of object files on variables, code and definitions; what a thread
-- runs when it is resumed, its stack but for what an escape frame saves, and the making of locks
-- and events; memory allocation and garbage collection; of class.c the making of the built-in
-- classes and the accessors; the division of bignums by bignums, their shifts and conversions;
-- floats; the merging of limited bignum types beyond its definition; the rest of mindy/interp
-- (byte codes, modules, functions, collections, input and output) and of mindy/comp, the
-- compiler to byte codes; and the parts of the repository other than Mindy, most of which are
-- written in Dylan.
pub mod Prelude
pub mod Bignum
pub mod Fixnum
pub mod Types
pub mod Classes
pub mod Pairs
pub mod Symbols
pub mod Threads
pub mod Dbc
pub mod Tests
