-- ===== src/Tests/Scenarios.antt =====
-- The unit test TestRelationVars of VCookie (abstraction/test.cpp), run on the model at a fixed time.
use elevator.Base.{
  ℕ, zero, suc, ◌+◌, ◌%◌, ◌≡◌, refl, Bool, true, false, ◌&&◌, List, [], ◌∷◌, ◌++◌, Option, none,
  some, ◌==◌, Run, done, Bytes, bytes_eq,
}
use elevator.Base.Outcome.{◌>>=◌}
use elevator.Base.Text.{codes}
use elevator.Cookie.{VCookie, construct, set_cookie_var, clear_cookie_var}
use elevator.Cookie.Vars.{
  RelVar, VarTable, alloc_type_first, alloc_type_last, alloc_type_linear, max_linear_not_set,
  find_relation_id, find_relation_pos, find_loop, set_var, set_at, insert_var, store_element,
  clear_var,
}
use elevator.Cookie.Vars.Read.{get_var, get_var_by_id, get_var_element_count}
use elevator.Memory.{load_vcookie}

abbrev relation_var : Bytes → ℕ → ℕ → RelVar
relation_var value timestamp revision = record {
  value = value;
  timestamp = timestamp;
  revision = revision;
}

abbrev pub set_first : VCookie → ℕ → Bytes → ℕ → ℕ → VCookie
set_first c rid value timestamp revision =
    (set_cookie_var c rid (relation_var value timestamp revision) alloc_type_first
      max_linear_not_set).0

abbrev pub set_linear : VCookie → ℕ → Bytes → ℕ → ℕ → ℕ → VCookie
set_linear c rid value timestamp revision max_linear =
    (set_cookie_var c rid (relation_var value timestamp revision) alloc_type_linear max_linear).0

-- CheckVar, one element
abbrev check_element : Option RelVar → Bytes → ℕ → ℕ → Bool
check_element none value t revision = false
check_element (some rv) value t revision =
    bytes_eq rv.value value && ((rv.revision == revision) && (rv.timestamp == t))

-- CheckVar, the loop from `i` on
unfoldable check_elements : VarTable → ℕ → Bytes → ℕ → ℕ → ℕ → ℕ → ℕ → Bool
check_elements table vid value t revision start zero i = true
check_elements table vid value t revision start (suc left) i =
    check_element (get_var_by_id table vid i) (value ++ (((start + i) % 256) ∷ [])) (t + i)
      (revision + i)
    && check_elements table vid value t revision start left (suc i)

unfoldable check_var : VCookie → ℕ → Bytes → ℕ → ℕ → ℕ → ℕ → Bool
unfolding check_elements
check_var c rid value t revision start count =
    let (n, vid) = get_var_element_count c.table rid in
    (n == count) && check_elements c.table vid value t revision start count 0

abbrev is_null : Option RelVar → Bool
is_null none = true
is_null (some rv) = false

-- The cookie of each test.
abbrev pub visitor : Run VCookie
visitor = construct (load_vcookie []) 12345 6789 9876 true

abbrev all_true : List Bool → Bool
all_true [] = true
all_true (check ∷ checks) = check && all_true checks

-- TestRelationVars
unfoldable test_relation_vars : ℕ → VCookie → Bool
unfolding check_var
test_relation_vars t c0 =
    let c1 = set_first c0 1 (codes "Var1a") t 0 in
    let c2 = set_first c1 1 (codes "Var1a") (t + 1) 1 in
    let c3 =
      (set_cookie_var c2 1 (relation_var (codes "Var1b") (t + 2) 2) alloc_type_last
        max_linear_not_set).0 in
    let c4 = clear_cookie_var c3 1 in
    let c5 = set_first c4 1 (codes "Var1c") (t + 3) 3 in
    let c6 = set_linear c5 1 (codes "Var1d") (t + 4) 4 1 in
    let c7 = set_linear c6 1 (codes "Var1e") (t + 5) 5 2 in
    let c8 = set_linear c7 1 (codes "Var1f") (t + 6) 6 3 in
    let c9 = set_linear c8 1 (codes "Var1g") (t + 7) 7 3 in
    let c10 = set_linear c9 1 (codes "Var1h") (t + 8) 8 2 in
    all_true (
      check_var c1 1 (codes "Var1") t 0 b'a' 1
      ∷ check_var c2 1 (codes "Var1") t 0 b'a' 1
      ∷ check_var c3 1 (codes "Var1") (t + 2) 2 b'b' 1
      ∷ is_null (get_var c3.table 1 1)
      ∷ ((get_var_element_count c4.table 1).0 == 0)
      ∷ is_null (get_var c4.table 1 0)
      ∷ check_var c5 1 (codes "Var1") (t + 3) 3 b'c' 1
      ∷ check_var c6 1 (codes "Var1") (t + 4) 4 b'd' 1
      ∷ check_var c7 1 (codes "Var1") (t + 4) 4 b'd' 2
      ∷ check_var c8 1 (codes "Var1") (t + 4) 4 b'd' 3
      ∷ check_var c9 1 (codes "Var1") (t + 5) 5 b'e' 3
      ∷ check_var c10 1 (codes "Var1") (t + 7) 7 b'g' 2
      ∷ [])

relation_vars_pass : (visitor >>= λ c. done (test_relation_vars 1000000 c)) ≡ done true
unfolding test_relation_vars construct get_var_element_count find_relation_id find_relation_pos
    find_loop set_cookie_var set_var set_at insert_var store_element get_var_by_id bytes_eq get_var
    clear_cookie_var clear_var
relation_vars_pass = refl
