-- ===== src/Tests/Cookies.antt =====
-- Runs of the relation variables and the purchase ids of a cookie (abstraction/vcookie.h), and the
-- theorems about them at concrete values.
use elevator.Base.{
  get_elem?, ℕ, ◌+◌, ◌-◌, ◌≤◌, ◌<◌, ◌≡◌, refl, arith, true, not, List, [], ◌∷◌, ◌++◌, some, none,
  ◌==◌, inr, if◌then◌else◌, length, drop, done, Bytes, bytes_eq,
}
use elevator.Cookie.Vars.{
  RelVar, VarTable, AllocationType, alloc_type_linear, alloc_type_last, find_relation_pos,
  find_relation_id, find_loop, search_pos, clear_var, set_var, set_at, insert_var, store_element,
  add_linear_element,
}
use elevator.Cookie.Vars.Read.{get_var, get_next_set_var, is_set, get_var_by_id}
use elevator.Cookie.Vars.View.{view, elements, update, id_at, IsWellFormed, IsLowerBound}
use elevator.Cookie.Vars.Search.{search_pos-IsLowerBound}
use elevator.Cookie.Vars.Refine.{Holds}
use elevator.Cookie.Vars.Lookup.{ceiling, get_var-ceiling}
use elevator.Cookie.Vars.Linear.{Names, add_linear_element-Holds}
use elevator.Cookie.Vars.Update.{clear_ceiling, spec_set, clear_var-Holds, set_var-Holds}
use elevator.Cookie.Vars.Walk.{first_id, later, get_next_set_var_lem}
use elevator.Cookie.Vars.Effect.{store_element_lem, set_elements, get_var-set_var}
use elevator.Cookie.Purchases.{set_purchase_ids, move_to_end, shift_left}
use elevator.Cookie.Purchases.Order.{occurs, without, Distinct, last_five, set_purchase_ids_lem}

abbrev pub element : ℕ → RelVar
element n = record { value = n ∷ n ∷ []; timestamp = n; revision = 1 }

-- Variable 5 was set first, then variable 2.
abbrev pub table : VarTable
table = record {
  rel_var =
      record { relation_id = 5; modified = true; var = element 50 ∷ [] }
      ∷ record { relation_id = 2; modified = true; var = element 20 ∷ element 21 ∷ [] }
      ∷ [];
  rel_var_sort = 1 ∷ 0 ∷ [];
}

pub table-IsWellFormed : IsWellFormed table
table-IsWellFormed = record { sizes = refl; in_range = omega arith; ascending = omega arith }

-- Asked for the absent variable 3, GetVar answers with the element of variable 5.
get_var_absent : get_var table 3 0 ≡ some (element 50)
unfolding get_var get_var_by_id find_relation_id find_relation_pos find_loop
get_var_absent = refl

-- ClearVar of the absent variable 3 empties variable 5.
clear_var_absent : get_var (clear_var table 3) 5 0 ≡ none
unfolding clear_var get_var get_var_by_id find_relation_id find_relation_pos find_loop
clear_var_absent = refl

set_var_run : find_relation_pos (set_var table 3 (element 30) alloc_type_last 0).table 5 ≡ 2
unfolding set_var set_at insert_var store_element find_relation_pos find_loop
set_var_run = refl

search_pos-IsLowerBound_example :
    (search_pos table 3 ≡ done (find_relation_pos table 3))
    × IsLowerBound (id_at (view table)) (length (view table)) 3 (find_relation_pos table 3)
search_pos-IsLowerBound_example = search_pos-IsLowerBound table 3 table-IsWellFormed

get_var-ceiling_example : get_var table 3 0 ≡ get_elem? (ceiling 3 (view table)) 0
get_var-ceiling_example = get_var-ceiling table 3 table-IsWellFormed 0

clear_var-Holds_example : Holds (clear_var table 3) (clear_ceiling 3 (view table))
clear_var-Holds_example = clear_var-Holds table 3 table-IsWellFormed

set_var-Holds_example :
    Holds
      (set_var table 3 (element 30) alloc_type_linear 2).table
      (spec_set 3 (element 30) alloc_type_linear 2 (view table))
set_var-Holds_example =
    set_var-Holds table 3 table-IsWellFormed (element 30) alloc_type_linear 2 (omega arith)

get_var-set_var_example : get_var (set_var table 2 (element 22) alloc_type_linear 2).table 5 0 ≡ (
    if 5 == 2
    then get_elem? (set_elements alloc_type_linear 2 (element 22) (elements 2 (view table))) 0
    else get_var table 5 0)
get_var-set_var_example =
    get_var-set_var table 2 5 0 (element 22) alloc_type_linear 2 table-IsWellFormed (omega arith)
      refl (inr (unfold elements in (λ e. cc e)))

store_element_lem_example :
    (0 < 2
      → (store_element alloc_type_linear 2 (element 22) (element 20 ∷ element 21 ∷ [])
          ≡ drop (2 + 1 - 2) (element 20 ∷ element 21 ∷ []) ++ (element 22 ∷ []))
        × (length (store_element alloc_type_linear 2 (element 22) (element 20 ∷ element 21 ∷ []))
            ≤ 2))
    × (store_element alloc_type_linear 0 (element 22) (element 20 ∷ element 21 ∷ [])
        ≡ element 20 ∷ element 21 ∷ element 22 ∷ [])
    × (store_element alloc_type_last 2 (element 22) (element 20 ∷ element 21 ∷ [])
        ≡ element 22 ∷ [])
    × (store_element AllocationType.alloc_type_first 2 (element 22) (element 20 ∷ element 21 ∷ [])
        ≡ element 22 ∷ [])
store_element_lem_example = store_element_lem 2 (element 22) (element 20 ∷ element 21 ∷ [])

names : Names table 1 2
names = record { pos = 0; inside = omega arith; there = refl; key = refl }

add_linear_element-Holds_example :
    Holds
      (add_linear_element table 1 (element 22)).0
      (update 2 (λ l. l ++ (element 22 ∷ [])) (view table))
    × Names (add_linear_element table 1 (element 22)).0 1 2
    × ((add_linear_element table 1 (element 22)).1 ≡ true)
add_linear_element-Holds_example =
    add_linear_element-Holds table 2 1 (element 22) table-IsWellFormed names

get_next_set_var_lem_example : get_next_set_var table 3 ≡ first_id is_set (later 3 (view table))
get_next_set_var_lem_example = get_next_set_var_lem table 3 table-IsWellFormed

abbrev pub ids : List Bytes
ids = (1 ∷ []) ∷ (2 ∷ []) ∷ (3 ∷ []) ∷ (4 ∷ []) ∷ (5 ∷ []) ∷ []

pub ids-Distinct : Distinct ids
unfolding occurs bytes_eq
ids-Distinct = (refl, (refl, (refl, (refl, (refl, tt)))))

set_purchase_ids_run :
    (set_purchase_ids ids (2 ∷ [])).0 ≡ (1 ∷ []) ∷ (3 ∷ []) ∷ (4 ∷ []) ∷ (5 ∷ []) ∷ (2 ∷ []) ∷ []
unfolding set_purchase_ids move_to_end shift_left bytes_eq
set_purchase_ids_run = refl

set_purchase_ids_lem_example :
    set_purchase_ids ids (2 ∷ [])
    ≡ (last_five (without (2 ∷ []) ids ++ ((2 ∷ []) ∷ [])), not (occurs (2 ∷ []) ids))
set_purchase_ids_lem_example = set_purchase_ids_lem ids (2 ∷ []) ids-Distinct (omega arith)
