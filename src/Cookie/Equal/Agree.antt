-- ===== src/Cookie/Equal/Agree.antt =====
-- operator == on two cookies whose variables agree.
use elevator.Base.{
  ℕ, zero, suc, ◌+◌, ◌-◌, ◌<◌, ◌≡◌, ◌≢◌, refl, sym, ◌∙◌, arith, true, List, [], ◌∷◌, ==-refl,
  ne→==_false, lt→leb_false, length, drop, get_or, All, All-get_or, Bool-cases, inl, inr, done,
  bytes_eq_refl,
}
use elevator.Cookie.{VCookie}
use elevator.Cookie.Equal.{same_members, same_element, same_elements, same_vars, vcookie_eq}
use elevator.Cookie.Vars.{
  RelVar, RelVarImpl, VarTable, impl, impl_at, key_at, invalid_rid, blank_impl,
}
use elevator.Cookie.Vars.Read.{
  get_var_element_count, get_var_by_id, get_first_set_var, get_set_var, is_set, scan,
}
use elevator.Cookie.Vars.View.{view, IsWellFormed}
use elevator.Cookie.Vars.Search.{key_at-view, length-view}
use elevator.Cookie.Vars.Refine.{sort_in_range}
use elevator.Cookie.Vars.Walk.{get_next_set_var_self, get_var_element_count_self}
use native.Mathlib.Numerals.{add-one}
use elevator.Codec.Emit.{get_elem?-drop}

-- The elements of two variables, from a position on.
same_elements_agree :
    (t u : VarTable) (av bv i : ℕ) (rest : List RelVar)
    → av < length t.rel_var
    → bv < length u.rel_var
    → drop i (impl t av).var ≡ rest
    → drop i (impl u bv).var ≡ rest
    → same_elements t av u bv (length rest) i ≡ done true
unfolding same_elements same_element get_var_by_id
same_elements_agree t u av bv i [] ha hb h k = refl
same_elements_agree t u av bv i (e ∷ rest) ha hb h k =
    let (got, tail) = get_elem?-drop (impl t av).var i e rest h in
    let (got', tail') = get_elem?-drop (impl u bv).var i e rest k in
    rw
      (
        lt→leb_false (length t.rel_var) av ha,
        lt→leb_false (length u.rel_var) bv hb,
        got,
        got',
        bytes_eq_refl e.value,
        ==-refl e.timestamp,
        ==-refl e.revision,
      )
      (same_elements_agree t u av bv (suc i) rest ha hb tail tail')

-- What operator == reads in the second table for the variable at a position of the first.
pub record Agrees (t u : VarTable) (pos : ℕ) : Type 0 where
  pub vid : ℕ
  pub counted : get_var_element_count u (key_at t pos) ≡ (length (impl_at t pos).var, vid)
  pub there : vid < length u.rel_var
  pub same : (impl u vid).var ≡ (impl_at t pos).var

-- From a position on, the loop over the relation ids ends and finds the variables equal.
module _ (t u : VarTable) (w : IsWellFormed t)
    (valid : All (λ x. x.relation_id ≢ invalid_rid) (view t))
    (agrees : (pos : ℕ)
      → pos < length t.rel_var_sort
      → is_set (impl_at t pos) ≡ true
      → Agrees t u pos) where
  same_vars-scan :
      (left pos fuel : ℕ)
      → pos + left ≡ length t.rel_var_sort
      → left < fuel
      → same_vars fuel t u (scan t is_set left pos) (scan t is_set left pos) ≡ done true
  unfolding same_vars scan
  same_vars-scan zero pos zero h f = absurd (omega arith)
  same_vars-scan zero pos (suc fuel) h f = refl
  same_vars-scan (suc left) pos zero h f = absurd (omega arith)
  same_vars-scan (suc left) pos (suc fuel) h f = elim (Bool-cases (is_set (impl_at t pos))) [
    | inr n ↦
        rw (n, add-one pos) (same_vars-scan left (suc pos) (suc fuel) (omega arith) (omega arith))
    | inl y ↦
        let ag = agrees pos (omega arith) y in
        rw
          (
            y,
            get_var_element_count_self t pos w (omega arith) y,
            ag.counted,
            ne→==_false (key_at t pos) invalid_rid here_valid,
            ==-refl (length (impl_at t pos).var),
            same_elements_agree t u (get_or t.rel_var_sort pos 0) ag.vid 0 (impl_at t pos).var
                (sort_in_range t w pos (omega arith)) ag.there refl ag.same,
            get_next_set_var_self t pos w (omega arith),
            next_left,
            ==-refl (scan t is_set left (suc pos)),
          )
          (same_vars-scan left (suc pos) fuel (omega arith) (omega arith))
  ]
    where
      here_valid : key_at t pos ≢ invalid_rid
      here_valid e =
          All-get_or (λ (x : RelVarImpl). x.relation_id ≢ invalid_rid) (view t) pos blank_impl valid
            (omega (arith, length-view t)) (sym (key_at-view t pos (omega arith)) ∙ e)

      next_left : length t.rel_var_sort - suc pos ≡ left
      next_left = omega arith

-- Cookies with the same members and the same first variable, whose variables agree.
module _ (a b : VCookie) (w : IsWellFormed a.table)
    (valid : All (λ x. x.relation_id ≢ invalid_rid) (view a.table))
    (agrees : (pos : ℕ)
      → pos < length a.table.rel_var_sort
      → is_set (impl_at a.table pos) ≡ true
      → Agrees a.table b.table pos) where
  pub vcookie_eq_agree :
      same_members a b ≡ true
      → get_first_set_var b.table ≡ get_first_set_var a.table
      → vcookie_eq (suc (length a.table.rel_var_sort)) a b ≡ done true
  unfolding vcookie_eq
  vcookie_eq_agree members first = rw (members, first, ==-refl (get_first_set_var a.table)) by_scan
    where
      all : length a.table.rel_var_sort - 0 ≡ length a.table.rel_var_sort
      all = omega arith

      first_scan : get_first_set_var a.table ≡ scan a.table is_set (length a.table.rel_var_sort) 0
      first_scan = unfold get_first_set_var get_set_var in rw all refl

      by_scan :
          same_vars
            (suc (length a.table.rel_var_sort))
            a.table
            b.table
            (get_first_set_var a.table)
            (get_first_set_var a.table)
          ≡ done true
      by_scan = rw first_scan (
          same_vars-scan a.table b.table w valid agrees (length a.table.rel_var_sort) 0
            (suc (length a.table.rel_var_sort)) (omega arith) (omega arith))
