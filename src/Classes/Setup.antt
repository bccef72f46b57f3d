-- ===== src/Classes/Setup.antt =====
-- Classes as structures, and `setup_class_supers` of mindy/interp/class.c, which enters a class under
-- its superclasses.
use gwydion_2_4_cleanup.Prelude.{
  ℕ, List, [], ◌∷◌, Option, none, some, Bool, true, false, not, ◌&&◌, ◌||◌, ◌==◌, if◌then◌else◌,
  update,
}
use gwydion_2_4_cleanup.Classes.{slow_compute_cpl, Outcome, ok, dylan_error, lost, no_fuel}

-- `struct class`, without the routines of the collector and the printer. A class whose superclasses
-- are #f or NULL has none; its list `cpl` is not read.
pub record Class : Type 0 where
  pub metaclass : ℕ
  pub sealed_p : Bool
  pub library : ℕ
  pub superclasses : Option (List ℕ)
  pub cpl : List ℕ
  pub direct_subclasses : List ℕ
  pub all_subclasses : List ℕ

-- `obj_StaticTypeClass` and `obj_DefinedClassClass`.
pub record Metaclasses : Type 0 where
  pub static_class : ℕ
  pub defined_class : ℕ

abbrev pub known : Option (List ℕ) → List ℕ
known none = []
known (some supers) = supers

-- The direct superclasses, as the classes have them.
abbrev pub supers_in : (ℕ → Class) → ℕ → List ℕ
supers_in classes c = known (classes c).superclasses

unfoldable pub compute_cpl : ℕ → (ℕ → Class) → ℕ → List ℕ → Outcome (List ℕ)
compute_cpl fuel classes class [] = ok (class ∷ [])
compute_cpl fuel classes class (super ∷ []) = ok (class ∷ (classes super).cpl)
compute_cpl fuel classes class (super ∷ next ∷ supers) =
    slow_compute_cpl fuel (supers_in classes) class

abbrev pub is_set : Option (List ℕ) → Bool
is_set none = false
is_set (some supers) = true

-- The first loop of `setup_class_supers`: an error, or the value of `some_static` after it.
unfoldable pub check_supers : Metaclasses → (ℕ → Class) → ℕ → List ℕ → Bool → Outcome Bool
check_supers meta classes class [] some_static = ok some_static
check_supers meta classes class (super ∷ supers) some_static =
    let rest =
      check_supers meta classes class supers
        (some_static || (classes super).metaclass == meta.static_class) in
    if (classes super).sealed_p && not ((classes super).library == (classes class).library)
    then dylan_error
    else if is_set (classes super).superclasses
    then rest
    else dylan_error

-- The other two loops.
unfoldable pub add_to_all : ℕ → List ℕ → (ℕ → Class) → ℕ → Class
add_to_all class [] classes = classes
add_to_all class (super ∷ supers) classes = add_to_all class supers (
    update classes super
      (record (classes super) { all_subclasses = class ∷ (classes super).all_subclasses }))

unfoldable pub add_to_direct : ℕ → List ℕ → (ℕ → Class) → ℕ → Class
add_to_direct class [] classes = classes
add_to_direct class (super ∷ supers) classes = add_to_direct class supers (
    update classes super
      (record (classes super) { direct_subclasses = class ∷ (classes super).direct_subclasses }))

abbrev pub tail_of : List ℕ → List ℕ
tail_of [] = []
tail_of (c ∷ cs) = cs

-- A class that inherits from a static one becomes static.
unfoldable pub become_static : Metaclasses → ℕ → (ℕ → Class) → ℕ → Class
become_static meta class classes =
    update classes class (record (classes class) { metaclass = meta.static_class })

unfoldable pub set_superclasses : ℕ → List ℕ → (ℕ → Class) → ℕ → Class
set_superclasses class supers classes =
    update classes class (record (classes class) { superclasses = some supers })

unfoldable pub set_cpl : ℕ → List ℕ → (ℕ → Class) → ℕ → Class
set_cpl class cpl classes = update classes class (record (classes class) { cpl = cpl })

-- What follows the computation of the list: the classes at the end, and how it ended.
unfoldable pub enter : ℕ → List ℕ → (ℕ → Class) → Outcome (List ℕ) → (ℕ → Class) × Outcome {0} Unit
enter class supers classes (ok cpl) =
    (add_to_direct class supers (add_to_all class (tail_of cpl) (set_cpl class cpl classes)), ok tt)
enter class supers classes dylan_error = (classes, dylan_error)
enter class supers classes lost = (classes, lost)
enter class supers classes no_fuel = (classes, no_fuel)

unfoldable pub set_supers : ℕ → ℕ → List ℕ → (ℕ → Class) → (ℕ → Class) × Outcome {0} Unit
set_supers fuel class supers classes =
    enter class supers (set_superclasses class supers classes)
      (compute_cpl fuel (set_superclasses class supers classes) class supers)

-- The body behind the first loop, by the outcome of that. A failed `assert` is `lost`.
unfoldable pub after_check :
    Metaclasses → ℕ → ℕ → List ℕ → (ℕ → Class) → Outcome Bool → (ℕ → Class) × Outcome {0} Unit
after_check meta fuel class supers classes (ok false) = set_supers fuel class supers classes
after_check meta fuel class supers classes (ok true) =
    if (classes class).metaclass == meta.defined_class
    then set_supers fuel class supers (become_static meta class classes)
    else (classes, lost)
after_check meta fuel class supers classes dylan_error = (classes, dylan_error)
after_check meta fuel class supers classes lost = (classes, lost)
after_check meta fuel class supers classes no_fuel = (classes, no_fuel)

unfoldable pub setup_class_supers :
    Metaclasses → ℕ → ℕ → List ℕ → (ℕ → Class) → (ℕ → Class) × Outcome {0} Unit
setup_class_supers meta fuel class supers classes =
    after_check meta fuel class supers classes (check_supers meta classes class supers false)
