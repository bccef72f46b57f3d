-- ===== src/Dbc/Runs.antt =====
-- Lists in a .dbc file: the runs of mindy/comp/dump.c as mindy/interp/load.c reads them.
use gwydion_2_4_cleanup.Prelude.{
  ℕ, zero, suc, ◌+◌, ◌≤◌, ◌<◌, ◌≡◌, ap, subst, ◌∙◌, Bool, true, ltb, if◌then◌else◌, Bool-cases, inl,
  inr, arith,
}
use gwydion_2_4_cleanup.Dbc.Format.{Literals, Object, nil, Read, ok, ◌>>=◌}
use gwydion_2_4_cleanup.Dbc.Dump.{
  Handles, Dumped, count, dump_then, dump_parts, dump_run, list_header,
}
use gwydion_2_4_cleanup.Dbc.Load.{Info, pairs, read_thing, read_things, read_list}
use gwydion_2_4_cleanup.Dbc.Literals.{loaded_parts, fuel_for_parts}
use gwydion_2_4_cleanup.Dbc.Sequence.{
  Reads, Reads-then, Reads-map, Reads-prefix, Reads-same, dump_then_assoc,
}
use mathlib.Core.Path.{fun_ext}
use gwydion_2_4_cleanup.Dbc.Headers.{last_header, run_header}
use gwydion_2_4_cleanup.Dbc.Lists.{
  AllGood, first, behind, count-first, count-behind, fuel_for-first, count-fuel_for, pairs-first,
  first-AllGood, behind-AllGood, parts_read, last_run, first_run, listed,
}

module _ (writer reader : Bool) where
  -- What `read_list` reads behind the parts.
  abbrev read_end : Bool → ℕ → Info → Read (Object × Info)
  read_end dotted fuel s = if dotted then read_thing fuel reader s else ok (nil, s)

  abbrev pub EndReads : Bool → (Handles → Dumped) → Object → ℕ → Type 0
  EndReads dotted d end fuel = Reads writer reader d (read_end dotted fuel) end

  module _ (dotted : Bool) (d : Handles → Dumped) (end : Object) where
    last-Reads :
        (ls : Literals) (fuel : ℕ)
        → AllGood writer reader ls
        → (dotted ≡ true → 0 < count ls)
        → count ls ≤ 264
        → fuel_for_parts ls ≤ fuel
        → EndReads dotted d end fuel
        → Reads writer reader
            (λ h. dump_then (listed writer reader dotted ls h) d)
            (read_thing (suc fuel) reader)
            (pairs (loaded_parts ls) end)
    unfolding read_list
    last-Reads ls fuel g p l m e =
        Reads-same writer reader
          (λ h.
            dump_then (list_header dotted (count ls), h)
              (λ h1. dump_then (dump_run writer dotted 264 ls h1) d))
          (λ h. dump_then (listed writer reader dotted ls h) d) (read_thing (suc fuel) reader)
          (pairs (loaded_parts ls) end)
          (λ h.
            dump_then_assoc (list_header dotted (count ls), h) (dump_run writer dotted 264 ls) d)
          (Reads-prefix writer reader (list_header dotted (count ls))
            (λ h1. dump_then (dump_run writer dotted 264 ls h1) d) (read_thing (suc fuel) reader)
            (read_list (read_thing fuel reader) (count ls) dotted) (pairs (loaded_parts ls) end)
            (λ more h s a. last_header reader fuel s more dotted (count ls) p l)
            (Reads-then writer reader (dump_run writer dotted 264 ls) d
              (read_things (read_thing fuel reader) (count ls))
              (λ parts s. read_end dotted fuel s >>= (λ tail. ok (pairs parts tail.0, tail.1)))
              (loaded_parts ls) (pairs (loaded_parts ls) end)
              (Reads-same writer reader (dump_parts writer ls) (dump_run writer dotted 264 ls)
                (read_things (read_thing fuel reader) (count ls)) (loaded_parts ls)
                (λ h. last_run writer reader dotted 264 ls h l)
                (parts_read writer reader ls fuel g m))
              (Reads-map writer reader d (read_end dotted fuel) (pairs (loaded_parts ls)) end e)))

    -- A run of 264 parts, and a list behind it.
    run-Reads :
        (ls : Literals) (fuel : ℕ)
        → AllGood writer reader ls
        → 264 < count ls
        → fuel_for_parts ls ≤ fuel
        → Reads writer reader
            (λ h. dump_then (listed writer reader dotted (behind 264 ls) h) d)
            (read_thing fuel reader)
            (pairs (loaded_parts (behind 264 ls)) end)
        → Reads writer reader
            (λ h. dump_then (listed writer reader dotted ls h) d)
            (read_thing (suc fuel) reader)
            (pairs (loaded_parts ls) end)
    unfolding read_list
    run-Reads ls fuel g l m e =
        Reads-same writer reader
          (λ h.
            dump_then (list_header dotted (count ls), h)
              (λ h1.
                dump_then (dump_parts writer (first 264 ls) h1)
                  (λ h2. dump_then (listed writer reader dotted (behind 264 ls) h2) d)))
          (λ h. dump_then (listed writer reader dotted ls h) d) (read_thing (suc fuel) reader)
          (pairs (loaded_parts ls) end)
          (λ h.
            ap (dump_then (list_header dotted (count ls), h)) (
              fun_ext λ h1.
                dump_then_assoc (dump_parts writer (first 264 ls) h1)
                  (listed writer reader dotted (behind 264 ls)) d
                ∙ ap (λ (x : Dumped). dump_then x d) (first_run writer reader dotted 264 ls h1 l))
            ∙ dump_then_assoc (list_header dotted (count ls), h) (dump_run writer dotted 264 ls) d)
          (Reads-prefix writer reader (list_header dotted (count ls))
            (λ h1.
              dump_then (dump_parts writer (first 264 ls) h1)
                (λ h2. dump_then (listed writer reader dotted (behind 264 ls) h2) d))
            (read_thing (suc fuel) reader) (read_list (read_thing fuel reader) 264 true)
            (pairs (loaded_parts ls) end)
            (λ more h s a. run_header reader fuel s more dotted (count ls) l)
            (subst
              (λ (v : Object).
                Reads writer reader
                  (λ h1.
                    dump_then (dump_parts writer (first 264 ls) h1)
                      (λ h2. dump_then (listed writer reader dotted (behind 264 ls) h2) d))
                  (read_list (read_thing fuel reader) 264 true) v)
              (pairs-first 264 ls end)
              (Reads-then writer reader (dump_parts writer (first 264 ls))
                (λ h2. dump_then (listed writer reader dotted (behind 264 ls) h2) d)
                (read_things (read_thing fuel reader) 264)
                (λ parts s. read_thing fuel reader s >>= (λ tail. ok (pairs parts tail.0, tail.1)))
                (loaded_parts (first 264 ls))
                (pairs (loaded_parts (first 264 ls)) (pairs (loaded_parts (behind 264 ls)) end))
                (subst
                  (λ (n : ℕ).
                    Reads writer reader (dump_parts writer (first 264 ls))
                      (read_things (read_thing fuel reader) n) (loaded_parts (first 264 ls)))
                  (count-first 264 ls (omega arith))
                  (parts_read writer reader (first 264 ls) fuel
                    (first-AllGood writer reader 264 ls g)
                    (omega (arith, fuel_for-first 264 ls (omega arith), m))))
                (Reads-map writer reader
                  (λ h2. dump_then (listed writer reader dotted (behind 264 ls) h2) d)
                  (read_thing fuel reader) (pairs (loaded_parts (first 264 ls)))
                  (pairs (loaded_parts (behind 264 ls)) end) e))))

    pub list-Reads :
        (fuel c : ℕ) (ls : Literals)
        → AllGood writer reader ls
        → (dotted ≡ true → 0 < count ls)
        → fuel_for_parts ls + c ≤ fuel
        → ((more : ℕ) → c ≤ more → EndReads dotted d end more)
        → Reads writer reader
            (λ h. dump_then (listed writer reader dotted ls h) d)
            (read_thing (suc fuel) reader)
            (pairs (loaded_parts ls) end)
    list-Reads zero c ls g p m e =
        last-Reads ls zero g p (omega (arith, count-fuel_for ls, m)) (omega (arith, m))
          (e zero (omega (arith, m)))
    list-Reads (suc fuel) c ls g p m e = elim (Bool-cases (ltb 264 (count ls))) [
      | inr l ↦
          last-Reads ls (suc fuel) g p (ground arith) (omega (arith, m))
            (e (suc fuel) (omega (arith, m)))
      | inl l ↦
          let long : 264 < count ls = ground arith in
          let some_first : 264 ≤ fuel_for_parts (first 264 ls) =
            omega
              (arith, count-fuel_for (first 264 ls), count-first 264 ls (omega (arith, long))) in
          run-Reads ls (suc fuel) g long (omega (arith, m)) (
            list-Reads fuel c (behind 264 ls) (behind-AllGood writer reader 264 ls g)
              (λ q. omega (arith, count-behind 264 ls (omega (arith, long)), long))
              (omega (arith, fuel_for-first 264 ls (omega (arith, long)), some_first, m)) e)
    ]
