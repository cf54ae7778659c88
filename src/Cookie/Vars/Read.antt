-- ===== src/Cookie/Vars/Read.antt =====
-- The observers of the relation variables in VCookie (abstraction/vcookie.h).
use elevator.Base.{
  get_elem?, ℕ, zero, suc, ◌+◌, ◌-◌, Bool, Option, none, ltb, leb, ◌==◌, if◌then◌else◌, ◌&&◌, not,
  length,
}
use elevator.Cookie.Vars.{
  RelVar, RelVarImpl, VarTable, var_not_set, invalid_rid, impl, impl_at, key_at, is_empty,
  find_relation_pos, find_relation_id,
}

-- The count, and what `*id` is set to.
unfoldable pub get_var_element_count : VarTable → ℕ → ℕ × ℕ
get_var_element_count t rid =
    let vid = find_relation_id t rid in
    let sz = length (impl t vid).var in
    if vid == var_not_set then (0, vid) else (sz, if sz == 0 then var_not_set else vid)

-- GetVar (VarId, unsigned); the null pointer is `none`.
unfoldable pub get_var_by_id : VarTable → ℕ → ℕ → Option RelVar
get_var_by_id t vid index =
    if leb (length t.rel_var) vid then none else get_elem? (impl t vid).var index

-- GetVar (RelationId, unsigned)
unfoldable pub get_var : VarTable → ℕ → ℕ → Option RelVar
get_var t rid index =
    let vid = find_relation_id t rid in
    if vid == var_not_set then none else get_var_by_id t vid index

-- GetSetVar and GetModifiedVar walk up from `pos` to the first variable that passes their test;
-- `left` counts the positions that remain.
unfoldable pub scan : VarTable → (RelVarImpl → Bool) → ℕ → ℕ → ℕ
scan t test zero pos = invalid_rid
scan t test (suc left) pos =
    let further = scan t test left (pos + 1) in
    if test (impl_at t pos) then key_at t pos else further

abbrev pub is_set : RelVarImpl → Bool
is_set rv = not (is_empty rv.var)

unfoldable pub get_set_var : VarTable → ℕ → ℕ
unfolding scan
get_set_var t pos = scan t is_set (length t.rel_var_sort - pos) pos

unfoldable pub get_modified_var : VarTable → ℕ → ℕ
unfolding scan
get_modified_var t pos = scan t (λ rv. rv.modified) (length t.rel_var_sort - pos) pos

-- The position behind `rid`, where GetNextSetVar and GetNextModifiedVar go on.
unfoldable pub next_pos : VarTable → ℕ → ℕ
next_pos t rid =
    let pos = find_relation_pos t rid in
    if ltb pos (length t.rel_var_sort) && (key_at t pos == rid) then pos + 1 else pos

unfoldable pub get_first_set_var : VarTable → ℕ
get_first_set_var t = get_set_var t 0

unfoldable pub get_next_set_var : VarTable → ℕ → ℕ
get_next_set_var t rid = get_set_var t (next_pos t rid)

unfoldable pub get_first_modified_var : VarTable → ℕ
get_first_modified_var t = get_modified_var t 0

unfoldable pub get_next_modified_var : VarTable → ℕ → ℕ
get_next_modified_var t rid = get_modified_var t (next_pos t rid)
