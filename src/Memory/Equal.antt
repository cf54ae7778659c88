-- ===== src/Memory/Equal.antt =====
-- A cookie that is saved in the in-memory store, and operator == with the one that is loaded.
use elevator.Base.{
  ℕ, suc, ◌-◌, ◌<◌, ◌≡◌, ◌≢◌, refl, sym, subst, ap, ◌∙◌, arith, true, false, not, List, [], ◌∷◌,
  map, length, All, Bool-cases, inl, inr, ◌==◌, ==-refl, done, bytes_eq_refl,
}
use elevator.Cookie.{VCookie, construct, clear_flags}
use elevator.Cookie.Equal.{same_members, vcookie_eq, vcookie_ne}
use elevator.Cookie.Equal.Agree.{Agrees, vcookie_eq_agree}
use elevator.Cookie.Equal.Reflexive.{same_ids_refl}
use elevator.Cookie.Vars.{
  RelVar, RelVarImpl, VarTable, impl_at, key_at, invalid_rid, is_empty, find_relation_id,
}
use elevator.Cookie.Vars.Read.{is_set, get_first_set_var, get_set_var}
use elevator.Cookie.Vars.View.{view, elements, id_at, IsLowerBound, IsWellFormed}
use elevator.Cookie.Vars.Search.{key_at-view, length-view, find_relation_pos-IsLowerBound}
use elevator.Cookie.Vars.Lookup.{
  elements_found, ceiling, ceiling-elements, ceiling_none, position_cases, vid_is_set, found_impl,
  get_var_element_count-ceiling,
}
use elevator.Cookie.Vars.Walk.{first_id, scan_lem, impl_at-view, find_relation_pos_self}
use elevator.Codec.Emit.{set_vars}
use elevator.Codec.AbsorbElements.{VarFits, loaded}
use elevator.Codec.RoundTrip.{CanSave}
use elevator.Memory.Keys.{Orders}
use elevator.Memory.{StoreMap, vid, save_vcookie, load_vcookie}
use elevator.Memory.Restore.{construct-save_vcookie}

-- What is loaded has the same first variable, and the same elements for an id that has some.
first_id-loaded :
    (es : List RelVarImpl) → first_id is_set (map loaded (set_vars es)) ≡ first_id is_set es
unfolding first_id
first_id-loaded [] = refl
first_id-loaded (x ∷ xs) = elim (Bool-cases (is_set x)) [
  | inl y ↦ rw (y, y) refl
  | inr n ↦ rw n (first_id-loaded xs)
]

no_elements : (l : List RelVar) → not (is_empty l) ≡ false → l ≡ []
no_elements [] e = refl
no_elements (x ∷ xs) e = absurd (cc e)

some_elements : (l : List RelVar) → not (is_empty l) ≡ true → l ≢ []
some_elements [] e k = cc
some_elements (x ∷ xs) e k = cc

elements-loaded :
    (es : List RelVarImpl) (rid : ℕ)
    → elements rid es ≢ []
    → elements rid (map loaded (set_vars es)) ≡ elements rid es
unfolding elements
elements-loaded [] rid ne = absurd (ne refl)
elements-loaded (x ∷ xs) rid ne = elim (Bool-cases (x.relation_id == rid)) [
  | inl e ↦ elim (Bool-cases (is_set x)) [
    | inl y ↦ rw (y, e) refl
    | inr n ↦ let here : x.var ≢ [] = rw e at ne in absurd (here (no_elements x.var n))
  ]
  | inr e ↦
      let ih = elements-loaded xs rid (rw e at ne) in
      elim (Bool-cases (is_set x)) [ inl y ↦ rw (y, e) ih | inr n ↦ rw (n, e) ih ]
]

-- Both tables hold elements for the id at a position.
module _ (t u : VarTable) (pos : ℕ) (w : IsWellFormed t) (v : IsWellFormed u)
    (h : pos < length t.rel_var_sort) (y : is_set (impl_at t pos) ≡ true) where
  own : elements (key_at t pos) (view t) ≡ (impl_at t pos).var
  own =
      elements_found (view t) (key_at t pos) pos
        (subst (IsLowerBound (id_at (view t)) (length (view t)) (key_at t pos))
          (find_relation_pos_self t pos w h) (find_relation_pos-IsLowerBound t (key_at t pos) w))
        (omega (arith, h, length-view t)) (sym (key_at-view t pos h))
      ∙ ap (λ (x : RelVarImpl). x.var) (impl_at-view t pos h)

  not_none : (impl_at t pos).var ≢ []
  not_none = some_elements (impl_at t pos).var y

  -- Where the second table holds the same elements for the id.
  module _ (same : elements (key_at t pos) (view u) ≡ elements (key_at t pos) (view t)) where
    above : ceiling (key_at t pos) (view u) ≡ (impl_at t pos).var
    above =
        ceiling-elements (view u) 0 (key_at t pos) v.ascending
          (λ e. not_none (sym own ∙ sym same ∙ e))
        ∙ same
        ∙ own

    elements-Agrees : Agrees t u pos
    elements-Agrees = elim (position_cases u (key_at t pos) v) [
      | inl below ↦ record {
        vid = find_relation_id u (key_at t pos);
        counted = get_var_element_count-ceiling u (key_at t pos) v ∙ rw (above, is_some) refl;
        there = (vid_is_set u (key_at t pos) v below).2;
        same = found_impl u (key_at t pos) v below ∙ above;
      }
      | inr past ↦ absurd (not_none (sym above ∙ ceiling_none u (key_at t pos) v past))
    ]
      where
        is_some : is_empty (impl_at t pos).var ≡ false
        is_some = ground (arith, y)

get_first_set_var-first_id : (t : VarTable) → get_first_set_var t ≡ first_id is_set (view t)
unfolding get_first_set_var get_set_var
get_first_set_var-first_id t =
    let all : length t.rel_var_sort - 0 ≡ length t.rel_var_sort = omega arith in
    rw all (scan_lem t is_set (length t.rel_var_sort) 0 (omega arith))

valid_ids : (es : List RelVarImpl) → All VarFits es → All (λ x. x.relation_id ≢ invalid_rid) es
valid_ids [] h = tt
valid_ids (x ∷ xs) (f, h) = (f.rid_valid, valid_ids xs h)

same_members-loaded :
    (c c' : VCookie) (t : VarTable)
    → c' ≡ record (clear_flags c) {
      new_cookie = false;
      last_hit_time_visitor_local = c.last_hit_time_gmt;
      last_purchase_time_gmt = c.last_hit_time_gmt;
      table = t;
    }
    → same_members c c' ≡ true
unfolding same_members clear_flags
same_members-loaded c c' t e =
    subst (λ x. same_members c x ≡ true) (sym e) (simp (==-refl, bytes_eq_refl, same_ids_refl))

-- After SaveVCookie of a cookie that can be saved, where operator < orders the visitor's id and the ids in
-- the store, the constructor gives a cookie with which the saved one is equal: within a round for each entry of its table and one more,
-- operator == answers true and operator != false.
pub vcookie_eq-construct :
    (store : StoreMap) (c : VCookie)
    → CanSave c false
    → Orders (vid c) store
    → (store' : StoreMap) × (c' : VCookie) × (save_vcookie store c ≡ done (store', true))
      × (construct (load_vcookie store') c.userid c.visid_high c.visid_low false ≡ done c')
      × (vcookie_eq (suc (length c.table.rel_var_sort)) c c' ≡ done true)
      × (vcookie_ne (suc (length c.table.rel_var_sort)) c c' ≡ done false)
unfolding vcookie_ne
vcookie_eq-construct store c s o =
    let (store', c', saved, ordered, made, members, holds) = construct-save_vcookie store c s o in
    let first =
      get_first_set_var-first_id c'.table
      ∙ ap (first_id is_set) holds.holds
      ∙ first_id-loaded (view c.table)
      ∙ sym (get_first_set_var-first_id c.table) in
    let agrees =
      λ (pos : ℕ) (h : pos < length c.table.rel_var_sort) (y : is_set (impl_at c.table pos) ≡ true).
        elements-Agrees c.table c'.table pos s.well_formed holds.well_formed h y (
          ap (elements (key_at c.table pos)) holds.holds
          ∙ elements-loaded (view c.table) (key_at c.table pos) (λ e.
            not_none c.table c'.table pos s.well_formed holds.well_formed h y
              (sym (own c.table c'.table pos s.well_formed holds.well_formed h y) ∙ e))) in
    let equal =
      vcookie_eq_agree c c' s.well_formed (valid_ids (view c.table) s.vars) agrees
        (same_members-loaded c c' c'.table members) first in
    (store', c', saved, made, equal, rw equal refl)
