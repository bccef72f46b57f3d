-- ===== src/Tests/Hierarchies.antt =====
-- The theorems on mindy/interp/class.c at concrete classes.
use gwydion_2_4_cleanup.Prelude.{
  ℕ, ◌<◌, ◌≡◌, refl, ◌⊎◌, List, [], ◌∷◌, none, true, false, ◌==◌, if◌then◌else◌, arith,
}
use gwydion_2_4_cleanup.Types.World.{memq}
use gwydion_2_4_cleanup.Classes.Order.{In}
use gwydion_2_4_cleanup.Classes.Precedence.{Ends, slow_compute_cpl_lem}
use gwydion_2_4_cleanup.Classes.Setup.{
  Class, Metaclasses, is_set, compute_cpl, check_supers, add_to_all, add_to_direct, become_static,
  set_superclasses, set_cpl, enter, set_supers, after_check, setup_class_supers,
}
use gwydion_2_4_cleanup.Classes.Invariant.{IsClasses, Ready, next_rank}
use gwydion_2_4_cleanup.Classes.Endings.{Results, setup_class_supers-IsClasses}
use gwydion_2_4_cleanup.Classes.Subclassing.{
  Built, fresh, sets_up, Built-IsClasses, setup_class_supers_order,
}
use gwydion_2_4_cleanup.Classes.{
  new_cpd, push_after, add_count, super_loop, add_supers, find_cpd, compute_cpd, pop_direct,
  tie_breaker, release, choose, cpl_loop, in_order, cpl_of_graph, slow_compute_cpl, ok, dylan_error,
}

-- 0 is on top, 1 and 2 are below it, 3 is below both, 4 takes them the other way round, and 5 is
-- below 3 and 4.
abbrev diamond : ℕ → List ℕ
diamond c =
    if c == 5
    then 4 ∷ 3 ∷ []
    else if c == 4
    then 1 ∷ 2 ∷ []
    else if c == 3
    then 2 ∷ 1 ∷ []
    else if c == 2
    then 0 ∷ []
    else if c == 1
    then 0 ∷ []
    else []

diamond_falls : (c d : ℕ) → In d (diamond c) → d < c
diamond_falls c d i = ground (arith, i)

diamond_cpl : slow_compute_cpl 5 diamond 3 ≡ ok (3 ∷ 2 ∷ 1 ∷ 0 ∷ [])
unfolding slow_compute_cpl cpl_of_graph in_order cpl_loop choose release tie_breaker pop_direct
    compute_cpd find_cpd add_supers super_loop add_count push_after new_cpd memq
diamond_cpl = refl

-- 3 has 2 before 1, and 4 has 1 before 2.
diamond_error : slow_compute_cpl 6 diamond 5 ≡ dylan_error
unfolding slow_compute_cpl cpl_of_graph in_order cpl_loop choose release tie_breaker pop_direct
    compute_cpd find_cpd add_supers super_loop add_count push_after new_cpd memq
diamond_error = refl

slow_compute_cpl_lem_example : Ends diamond 3 (slow_compute_cpl 5 diamond 3)
slow_compute_cpl_lem_example = slow_compute_cpl_lem diamond (λ c. c) 5 3 diamond_falls (omega arith)

-- Classes before any is entered.
abbrev plain : ℕ → Class
plain c = record {
  metaclass = 9;
  sealed_p = false;
  library = 0;
  superclasses = none;
  cpl = [];
  direct_subclasses = [];
  all_subclasses = [];
}

abbrev metas : Metaclasses
metas = record { static_class = 8; defined_class = 9 }

abbrev object : ℕ → Class
object = (setup_class_supers metas 9 0 ([]) plain).0

abbrev object_rank : ℕ → ℕ
object_rank = next_rank (λ c. 0) 0 ([])

object-Built : Built metas object_rank object
unfolding setup_class_supers after_check set_supers enter set_cpl set_superclasses become_static
    add_to_direct add_to_all check_supers compute_cpl slow_compute_cpl cpl_of_graph in_order
    cpl_loop choose release tie_breaker pop_direct compute_cpd find_cpd add_supers super_loop
    add_count push_after new_cpd memq
object-Built =
    sets_up (λ c. 0) plain object 9 0 ([]) (fresh plain (λ c. refl) (λ c. refl)) refl (omega arith)
      refl

abbrev left : ℕ → Class
left = (setup_class_supers metas 9 1 (0 ∷ []) object).0

abbrev left_rank : ℕ → ℕ
left_rank = next_rank object_rank 1 (0 ∷ [])

left-Built : Built metas left_rank left
unfolding setup_class_supers after_check set_supers enter set_cpl set_superclasses become_static
    add_to_direct add_to_all check_supers compute_cpl slow_compute_cpl cpl_of_graph in_order
    cpl_loop choose release tie_breaker pop_direct compute_cpd find_cpd add_supers super_loop
    add_count push_after new_cpd memq
left-Built = sets_up object_rank object left 9 1 (0 ∷ []) (object-Built) refl (omega arith) refl

abbrev both : ℕ → Class
both = (setup_class_supers metas 9 2 (0 ∷ []) left).0

abbrev both_rank : ℕ → ℕ
both_rank = next_rank left_rank 2 (0 ∷ [])

both-Built : Built metas both_rank both
unfolding setup_class_supers after_check set_supers enter set_cpl set_superclasses become_static
    add_to_direct add_to_all check_supers compute_cpl slow_compute_cpl cpl_of_graph in_order
    cpl_loop choose release tie_breaker pop_direct compute_cpd find_cpd add_supers super_loop
    add_count push_after new_cpd memq
both-Built = sets_up left_rank left both 9 2 (0 ∷ []) (left-Built) refl (omega arith) refl

both-IsClasses : IsClasses both_rank both
both-IsClasses = Built-IsClasses metas both_rank both both-Built

both_fresh : is_set (both 3).superclasses ≡ false
unfolding setup_class_supers after_check set_supers enter set_cpl set_superclasses become_static
    add_to_direct add_to_all check_supers compute_cpl slow_compute_cpl cpl_of_graph in_order
    cpl_loop choose release tie_breaker pop_direct compute_cpd find_cpd add_supers super_loop
    add_count push_after new_cpd memq
both_fresh = refl

-- A class under two others.
setup_class_supers-IsClasses_example :
    Results both_rank both both-IsClasses 3 both_fresh metas
      (2 ∷ 1 ∷ [])
      (setup_class_supers metas 9 3 (2 ∷ 1 ∷ []) both)
setup_class_supers-IsClasses_example =
    setup_class_supers-IsClasses both_rank both both-IsClasses 3 both_fresh metas (2 ∷ 1 ∷ []) 9
      (omega arith)

both_setup : (setup_class_supers metas 9 3 (2 ∷ 1 ∷ []) both).1 ≡ ok tt
unfolding setup_class_supers after_check set_supers enter set_cpl set_superclasses become_static
    add_to_direct add_to_all check_supers compute_cpl slow_compute_cpl cpl_of_graph in_order
    cpl_loop choose release tie_breaker pop_direct compute_cpd find_cpd add_supers super_loop
    add_count push_after new_cpd memq
both_setup = refl

both_cpl : ((setup_class_supers metas 9 3 (2 ∷ 1 ∷ []) both).0 3).cpl ≡ 3 ∷ 2 ∷ 1 ∷ 0 ∷ []
unfolding setup_class_supers after_check set_supers enter set_cpl set_superclasses become_static
    add_to_direct add_to_all check_supers compute_cpl slow_compute_cpl cpl_of_graph in_order
    cpl_loop choose release tie_breaker pop_direct compute_cpd find_cpd add_supers super_loop
    add_count push_after new_cpd memq
both_cpl = refl

-- 1 below 0.
both-Ready : Ready both 1
unfolding setup_class_supers after_check set_supers enter set_cpl set_superclasses become_static
    add_to_direct add_to_all check_supers compute_cpl slow_compute_cpl cpl_of_graph in_order
    cpl_loop choose release tie_breaker pop_direct compute_cpd find_cpd add_supers super_loop
    add_count push_after new_cpd memq
both-Ready = refl

both_object : memq 0 (both 1).cpl ≡ true
unfolding setup_class_supers after_check set_supers enter set_cpl set_superclasses become_static
    add_to_direct add_to_all check_supers compute_cpl slow_compute_cpl cpl_of_graph in_order
    cpl_loop choose release tie_breaker pop_direct compute_cpd find_cpd add_supers super_loop
    add_count push_after new_cpd memq
both_object = refl

both_top : memq 0 (both 0).cpl ≡ true
unfolding setup_class_supers after_check set_supers enter set_cpl set_superclasses become_static
    add_to_direct add_to_all check_supers compute_cpl slow_compute_cpl cpl_of_graph in_order
    cpl_loop choose release tie_breaker pop_direct compute_cpd find_cpd add_supers super_loop
    add_count push_after new_cpd memq
both_top = refl

setup_class_supers_order_example :
    (memq 1 (both 1).cpl ≡ true)
    × (memq 0 (both 1).cpl ≡ true)
    × (◌≡◌ {A = ℕ} 1 0 ⊎ (memq 1 (both 0).all_subclasses ≡ true))
setup_class_supers_order_example =
    setup_class_supers_order metas both_rank both 1 0 0 both-Built both-Ready both_object both_top
