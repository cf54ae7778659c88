-- ===== src/Cookie/Vars.antt =====
-- The relation variables of VCookie (abstraction/vcookie.h): the members relVar and relVarSort,
-- and the methods that work on them alone.
pub mod Read
pub mod View
pub mod Search
pub mod Refine
pub mod Lookup
pub mod Update
pub mod Linear
pub mod Walk
pub mod Effect
use elevator.Base.{
  ℕ, zero, suc, ◌+◌, ◌-◌, ◌/◌, ◌%◌, ◌^◌, Bool, true, false, List, [], ◌∷◌, ◌++◌, ltb, leb, ◌==◌,
  if◌then◌else◌, ◌||◌, ◌&&◌, not, length, get_or, set, Bytes, insert_at, resize, Run, done, fault,
  out_of_fuel,
}

pub data AllocationType : Type 0 where
  alloc_type_last alloc_type_first alloc_type_linear : AllocationType

abbrev pub max_linear_not_set : ℕ
max_linear_not_set = 2 ^ 32 - 1

abbrev pub max_linear_infinite : ℕ
max_linear_infinite = 0

-- VAR_NOT_SET and INVALID_RID
abbrev pub var_not_set : ℕ
var_not_set = 2 ^ 32 - 1

abbrev pub invalid_rid : ℕ
invalid_rid = 2 ^ 16 - 1

pub record RelVar : Type 0 where
  pub value : Bytes
  pub timestamp : ℕ
  pub revision : ℕ

pub record RelVarImpl : Type 0 where
  pub relation_id : ℕ
  pub modified : Bool
  pub var : List RelVar

pub record VarTable : Type 0 where
  pub rel_var : List RelVarImpl
  pub rel_var_sort : List ℕ

-- What `resize` puts in new places.
abbrev pub blank_var : RelVar
blank_var = record { value = []; timestamp = 0; revision = 0 }

abbrev pub blank_impl : RelVarImpl
blank_impl = record { relation_id = 0; modified = false; var = [] }

abbrev pub no_vars : VarTable
no_vars = record { rel_var = []; rel_var_sort = [] }

-- relVar[vid] and relVar[relVarSort[pos]]
abbrev pub impl : VarTable → ℕ → RelVarImpl
impl t vid = get_or t.rel_var vid blank_impl

abbrev pub impl_at : VarTable → ℕ → RelVarImpl
impl_at t pos = impl t (get_or t.rel_var_sort pos 0)

abbrev pub key_at : VarTable → ℕ → ℕ
key_at t pos = (impl_at t pos).relation_id

-- The loop of FindRelationPos, over the keys `key`. Each round shortens `high - low`. The sum
-- `low + high` is of `unsigned`s.
unfoldable pub find_loop : (ℕ → ℕ) → ℕ → ℕ → ℕ → ℕ → Run ℕ
find_loop key rid zero low high = out_of_fuel
find_loop key rid (suc fuel) low high =
    let mid = (low + high) % 2 ^ 32 / 2 in
    let right = find_loop key rid fuel mid high in
    let left = find_loop key rid fuel low mid in
    if ltb low high
    then (if key mid == rid
        then done mid
        else (if ltb (key mid) rid then (if mid == low then done high else right) else left))
    else done low

-- The loop, with a round for each entry of the table and one more.
abbrev pub search_pos : VarTable → ℕ → Run ℕ
unfolding find_loop
search_pos t rid = find_loop (key_at t) rid (suc (length t.rel_var_sort)) 0 (length t.rel_var_sort)

-- The position that a search returns; the position of a search that does not end is 0 here.
abbrev pub position_of : Run ℕ → ℕ
position_of (done pos) = pos
position_of fault = 0
position_of out_of_fuel = 0

unfoldable pub find_relation_pos : VarTable → ℕ → ℕ
find_relation_pos t rid = position_of (search_pos t rid)

unfoldable pub find_relation_id : VarTable → ℕ → ℕ
find_relation_id t rid =
    let pos = find_relation_pos t rid in
    if ltb pos (length t.rel_var_sort) then get_or t.rel_var_sort pos 0 else var_not_set

-- relVar[vid] = rv
abbrev pub put_impl : VarTable → ℕ → RelVarImpl → VarTable
put_impl t vid rv = record t { rel_var = set t.rel_var vid rv }

unfoldable pub clear_var : VarTable → ℕ → VarTable
clear_var t rid =
    let vid = find_relation_id t rid in
    if vid == var_not_set
    then t
    else put_impl t vid (record (impl t vid) { var = []; modified = true })

-- while (curSize >= maxLinear && curSize > 0) { pop_front; --curSize; }
unfoldable pub pop_while : ℕ → List RelVar → List RelVar
pop_while max_linear [] = []
pop_while max_linear (x ∷ xs) =
    if leb max_linear (length (x ∷ xs)) then pop_while max_linear xs else x ∷ xs

-- From `RelVarImpl &rv (relVar[vid])` on, the part of SetVar that makes room in the deque and
-- stores the element: the new deque.
unfoldable pub store_element : AllocationType → ℕ → RelVar → List RelVar → List RelVar
unfolding pop_while
store_element alloc_type_linear max_linear e var =
    (if max_linear == max_linear_infinite then var else pop_while max_linear var) ++ (e ∷ [])
store_element alloc_type_last max_linear e var = set (resize var 1 blank_var) 0 e
store_element alloc_type_first max_linear e var = set (resize var 1 blank_var) 0 e

abbrev pub is_first : AllocationType → Bool
is_first alloc_type_first = true
is_first _ = false

abbrev pub is_last : AllocationType → Bool
is_last alloc_type_last = true
is_last _ = false

abbrev pub is_linear : AllocationType → Bool
is_linear alloc_type_linear = true
is_linear _ = false

-- What SetVar leaves: the table, the VarId that it returns, and whether it reached the line that
-- sets the modified flags of the cookie.
pub record SetResult : Type 0 where
  pub table : VarTable
  pub var_id : ℕ
  pub stored : Bool

-- The common end of SetVar, on the variable at `vid`.
unfoldable pub set_at : VarTable → ℕ → RelVar → AllocationType → ℕ → SetResult
set_at t vid e alloc max_linear = record {
  table = put_impl t vid (record (impl t vid) {
    var = store_element alloc max_linear e (impl t vid).var;
    modified = true;
  });
  var_id = if is_linear alloc then vid else var_not_set;
  stored = true;
}

-- The branch that inserts a new variable at `pos`.
unfoldable pub insert_var : VarTable → ℕ → ℕ → VarTable
insert_var t pos rid = record {
  rel_var = t.rel_var ++ (record blank_impl { relation_id = rid } ∷ []);
  rel_var_sort = insert_at t.rel_var_sort pos (length t.rel_var);
}

abbrev pub is_empty {ℓ} : {A : Type ℓ} → List A → Bool
is_empty [] = true
is_empty (x ∷ xs) = false

unfoldable pub set_var : VarTable → ℕ → RelVar → AllocationType → ℕ → SetResult
set_var t rid e alloc max_linear =
    let pos = find_relation_pos t rid in
    let size = length t.rel_var in
    let vid = get_or t.rel_var_sort pos 0 in
    if is_empty e.value
    then record {
      table = if is_last alloc then clear_var t rid else t;
      var_id = var_not_set;
      stored = false;
    }
    else if (leb size pos || not (key_at t pos == rid))
    then set_at (insert_var t pos rid) size e alloc max_linear
    else if (is_first alloc && (length (impl t vid).var == 1))
    then record { table = t; var_id = var_not_set; stored = false }
    else set_at t vid e alloc max_linear

-- An id that is out of range is ignored; the second part says whether the element was stored.
unfoldable pub add_linear_element : VarTable → ℕ → RelVar → VarTable × Bool
add_linear_element t id e = if leb (length t.rel_var) id then (t, false) else (
  put_impl t id (record (impl t id) { var = (impl t id).var ++ (e ∷ []); modified = true }),
  true,
)
