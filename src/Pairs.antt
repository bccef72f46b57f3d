-- ===== src/Pairs.antt =====
-- Lists, mindy/interp/list.c. An object is a number, its address, and the pairs are in a memory that
-- the operations change.
pub mod Sizes
pub mod Reversing
pub mod Making
use gwydion_2_4_cleanup.Prelude.{
  ℕ, zero, suc, ◌+◌, List, [], ◌∷◌, Option, none, some, Bool, true, false, not, ◌==◌, if◌then◌else◌,
  update,
}

-- `HEAD` and `TAIL` of every `struct list`.
pub record Memory : Type 0 where
  pub head : ℕ → ℕ
  pub tail : ℕ → ℕ

-- `pair`, allocated at `address`.
unfoldable pub pair : ℕ → ℕ → ℕ → Memory → Memory
pair address head tail m = record {
  head = update m.head address head;
  tail = update m.tail address tail;
}

-- `dylan_tail_setter`.
unfoldable pub set_tail : ℕ → ℕ → Memory → Memory
set_tail tail list m = record m { tail = update m.tail list tail }

-- `dylan_head_setter`.
unfoldable pub set_head : ℕ → ℕ → Memory → Memory
set_head head list m = record m { head = update m.head list head }

-- The loop of `dylan_list`, over the arguments from the top of the stack, each pair at the next
-- address.
unfoldable pub dylan_list : List (ℕ × ℕ) → ℕ → Memory → ℕ × Memory
dylan_list [] result m = (result, m)
dylan_list ((address, arg) ∷ args) result m = dylan_list args address (pair address arg result m)

module _ (obj_Nil : ℕ) where
  -- The loop of `nreverse`; none where there is not enough fuel.
  unfoldable pub nreverse_loop : ℕ → ℕ → ℕ → Memory → Option (ℕ × Memory)
  nreverse_loop zero list result m = none
  nreverse_loop (suc fuel) list result m =
      let rest = nreverse_loop fuel (m.tail list) list (set_tail result list m) in
      if list == obj_Nil then some (result, m) else rest

  unfoldable pub nreverse : ℕ → ℕ → Memory → Option (ℕ × Memory)
  nreverse fuel list m = nreverse_loop fuel list obj_Nil m

  -- The loop of `length`.
  unfoldable pub length_loop : ℕ → ℕ → ℕ → Memory → Option ℕ
  length_loop zero list count m = none
  length_loop (suc fuel) list count m =
      let rest = length_loop fuel (m.tail list) (count + 1) m in
      if list == obj_Nil then some count else rest

-- What `dylan_list_size` returns: a number, #f, or a type error with its object.
pub data Size : Type 0 where
  size : ℕ → Size
  circular : Size
  type_error : ℕ → Size
  no_fuel : Size

module _ (obj_Nil : ℕ) (is_pair : ℕ → Bool) (m : Memory) where
  -- Its loop, where `is_pair` is the test of the class.
  unfoldable pub size_loop : ℕ → ℕ → ℕ → ℕ → Size
  size_loop zero slow fast length = no_fuel
  size_loop (suc fuel) slow fast length =
      let next = m.tail fast in
      let after_next = m.tail next in
      let rest = size_loop fuel (m.tail slow) after_next (length + 2) in
      if next == obj_Nil
      then size (length + 1)
      else if not (is_pair next)
      then type_error next
      else if after_next == obj_Nil
      then size (length + 2)
      else if not (is_pair after_next)
      then type_error after_next
      else if m.tail slow == after_next
      then circular
      else rest

  unfoldable pub dylan_list_size : ℕ → ℕ → Size
  dylan_list_size fuel list =
      if list == obj_Nil
      then size 0
      else if not (is_pair list)
      then type_error list
      else size_loop fuel list list 0
