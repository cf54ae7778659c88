-- ===== src/Cookie/Vars/Lookup.antt =====
-- Where FindRelationPos and FindRelationId end, and what the methods that use them read.
use elevator.Base.{
  get_elem?, ℕ, zero, suc, ◌≤◌, ◌<◌, ◌≡◌, ◌≢◌, ◌⊎◌, refl, sym, ap, ◌∙◌, arith, false, List, [], ◌∷◌,
  ltb, ◌==◌, if◌then◌else◌, length, get_or, inl, inr, Bool-cases, ltb→lt, ltb_false→le, ==_iff,
  ==_false→ne, get_or-map, ne→==_false, lt→leb_false, le→ltb_false, lt→ltb,
}
use elevator.Cookie.Vars.{
  RelVar, RelVarImpl, VarTable, impl, key_at, blank_impl, var_not_set, find_relation_pos,
  find_relation_id, is_empty,
}
use elevator.Cookie.Vars.Read.{get_var_element_count, get_var_by_id, get_var}
use elevator.Cookie.Vars.View.{
  view, elements, id_at, Ascending, IsWellFormed, IsLowerBound, IsLowerBound-tail, elements-absent,
}
use elevator.Cookie.Vars.Search.{key_at-view, length-view, find_relation_pos-IsLowerBound}
use elevator.Cookie.Vars.Refine.{table_small, sort_in_range}

-- What is stored for `rid` stands at the lower bound, if anywhere.
pub elements_found :
    (es : List RelVarImpl) (rid pos : ℕ)
    → IsLowerBound (id_at es) (length es) rid pos
    → pos < length es
    → id_at es pos ≡ rid
    → elements rid es ≡ (get_or es pos blank_impl).var
unfolding elements
elements_found [] rid pos b h e = absurd (omega arith)
elements_found (x ∷ xs) rid zero b h e = rw ((==_iff x.relation_id rid).1 e)
elements_found (x ∷ xs) rid (suc pos) b h e =
    let lt : x.relation_id < rid = b.below 0 (omega arith) in
    rw (ne→==_false x.relation_id rid (omega arith))
      (elements_found xs rid pos (IsLowerBound-tail x xs rid pos b) (omega arith) e)

pub elements_missing :
    (es : List RelVarImpl) (lo rid pos : ℕ)
    → Ascending lo es
    → IsLowerBound (id_at es) (length es) rid pos
    → (pos < length es → id_at es pos ≢ rid)
    → elements rid es ≡ []
unfolding elements
elements_missing [] lo rid pos a b ne = refl
elements_missing (x ∷ xs) lo rid zero a b ne =
    let le : rid ≤ x.relation_id = b.above 0 (omega arith) (omega arith) in
    let d : x.relation_id ≢ rid = ne (omega arith) in
    rw (ne→==_false _ _ d) (elements-absent xs (suc x.relation_id) rid a.2 (omega arith))
elements_missing (x ∷ xs) lo rid (suc pos) a b ne =
    let lt : x.relation_id < rid = b.below 0 (omega arith) in
    rw (ne→==_false x.relation_id rid (omega arith)) (
      elements_missing xs (suc x.relation_id) rid pos a.2 (IsLowerBound-tail x xs rid pos b)
        (λ h. ne (omega arith)))

-- The elements of the first variable whose relation id is not below `rid`.
unfoldable pub ceiling : ℕ → List RelVarImpl → List RelVar
ceiling rid [] = []
ceiling rid (x ∷ xs) = if ltb x.relation_id rid then ceiling rid xs else x.var

ceiling_found :
    (es : List RelVarImpl) (rid pos : ℕ)
    → IsLowerBound (id_at es) (length es) rid pos
    → pos < length es
    → ceiling rid es ≡ (get_or es pos blank_impl).var
unfolding ceiling
ceiling_found [] rid pos b h = absurd (omega arith)
ceiling_found (x ∷ xs) rid zero b h =
    rw (le→ltb_false x.relation_id rid (b.above 0 (omega arith) (omega arith)))
ceiling_found (x ∷ xs) rid (suc pos) b h =
    rw (lt→ltb x.relation_id rid (b.below 0 (omega arith)))
      (ceiling_found xs rid pos (IsLowerBound-tail x xs rid pos b) (omega arith))

ceiling_end :
    (es : List RelVarImpl) (rid pos : ℕ)
    → IsLowerBound (id_at es) (length es) rid pos
    → pos ≡ length es
    → ceiling rid es ≡ []
unfolding ceiling
ceiling_end [] rid pos b h = refl
ceiling_end (x ∷ xs) rid zero b h = absurd (omega arith)
ceiling_end (x ∷ xs) rid (suc pos) b h =
    rw (lt→ltb x.relation_id rid (b.below 0 (omega arith)))
      (ceiling_end xs rid pos (IsLowerBound-tail x xs rid pos b) (omega arith))

-- An id that stores something is its own ceiling.
pub ceiling-elements :
    (es : List RelVarImpl) (lo rid : ℕ)
    → Ascending lo es
    → elements rid es ≢ []
    → ceiling rid es ≡ elements rid es
unfolding ceiling elements
ceiling-elements [] lo rid a ne = absurd (ne refl)
ceiling-elements (x ∷ xs) lo rid a ne = ground (
  arith,
  ceiling-elements xs (suc x.relation_id) rid a.2,
  elements-absent xs (suc x.relation_id) rid a.2,
)

-- Where the search for `rid` ends in a well-formed table.
pub data Position (t : VarTable) (rid : ℕ) : Type 0 where
  found :
      find_relation_pos t rid < length t.rel_var_sort
      → key_at t (find_relation_pos t rid) ≡ rid
      → elements rid (view t) ≡ (impl t (get_or t.rel_var_sort (find_relation_pos t rid) 0)).var
      → Position t rid
  passed :
      find_relation_pos t rid < length t.rel_var_sort
      → rid < key_at t (find_relation_pos t rid)
      → elements rid (view t) ≡ []
      → Position t rid
  end :
      find_relation_pos t rid ≡ length t.rel_var_sort → elements rid (view t) ≡ [] → Position t rid

module _ (t : VarTable) (rid : ℕ) (w : IsWellFormed t) where
  pub position : Position t rid
  position = elim (Bool-cases (ltb pos (length t.rel_var_sort))) [
    | inr e ↦
        let le = ltb_false→le _ _ e in
        end (let k = b.within in omega (arith, length-view t))
          (missing (λ h. absurd (omega (arith, length-view t))))
    | inl e ↦ elim (Bool-cases (key_at t pos == rid)) [
      | inl same ↦
          let lt = ltb→lt _ _ e in
          let key = (==_iff _ _).0 same in
          found lt key (
            elements_found (view t) rid pos b (rw length-view lt) (sym (key_at-view t pos lt) ∙ key)
            ∙ ap (λ (r : RelVarImpl). r.var)
                (get_or-map (impl t) t.rel_var_sort pos 0 blank_impl lt))
      | inr other ↦
          let lt = ltb→lt _ _ e in
          let ne = ==_false→ne _ _ other in
          passed lt
            (let k = b.above pos (omega arith) (rw length-view lt) in
              omega (arith, key_at-view t pos lt))
            (missing (λ h q. ne (key_at-view t pos lt ∙ q)))
    ]
  ]
    where
      pos : ℕ
      pos = find_relation_pos t rid

      b : IsLowerBound (id_at (view t)) (length (view t)) rid pos
      b = find_relation_pos-IsLowerBound t rid w

      missing : (pos < length (view t) → id_at (view t) pos ≢ rid) → elements rid (view t) ≡ []
      missing = elements_missing (view t) 0 rid pos w.ascending b

  pub position_cases :
      (find_relation_pos t rid < length t.rel_var_sort)
      ⊎ (find_relation_pos t rid ≡ length t.rel_var_sort)
  position_cases = elim position [ found h _ _ ↦ inl h | passed h _ _ ↦ inl h | end h _ ↦ inr h ]

  pub vid_is_set :
      find_relation_pos t rid < length t.rel_var_sort
      → (find_relation_id t rid ≡ get_or t.rel_var_sort (find_relation_pos t rid) 0)
        × ((find_relation_id t rid == var_not_set) ≡ false)
        × (find_relation_id t rid < length t.rel_var)
  unfolding find_relation_id
  vid_is_set h =
      let k = sort_in_range t w (find_relation_pos t rid) h in
      rw (lt→ltb _ _ h) (refl, ne→==_false _ _ (omega (arith, table_small t w)), k)

  pub vid_is_not_set :
      find_relation_pos t rid ≡ length t.rel_var_sort → find_relation_id t rid ≡ var_not_set
  unfolding find_relation_id
  vid_is_not_set h =
      rw (le→ltb_false (find_relation_pos t rid) (length t.rel_var_sort) (omega (arith, h)))

  -- The id found stands for the first variable at or above `rid`.
  pub found_impl :
      find_relation_pos t rid < length t.rel_var_sort
      → (impl t (find_relation_id t rid)).var ≡ ceiling rid (view t)
  found_impl h =
      ap (λ (v : ℕ). (impl t v).var) (vid_is_set h).0
      ∙ sym (
          ceiling_found (view t) rid _ (find_relation_pos-IsLowerBound t rid w) (rw length-view h)
          ∙ ap (λ (r : RelVarImpl). r.var) (get_or-map (impl t) t.rel_var_sort _ 0 blank_impl h))

  pub ceiling_none : find_relation_pos t rid ≡ length t.rel_var_sort → ceiling rid (view t) ≡ []
  ceiling_none h =
      ceiling_end (view t) rid _ (find_relation_pos-IsLowerBound t rid w) (h ∙ sym (length-view t))

  -- GetVar (RelationId, unsigned) on a well-formed table reads the elements of the first variable
  -- whose relation id is not below the one asked for, whether or not it is the one asked for.
  pub get_var-ceiling : (i : ℕ) → get_var t rid i ≡ get_elem? (ceiling rid (view t)) i
  unfolding get_var get_var_by_id
  get_var-ceiling i = elim (position_cases) [
    | inl h ↦
        let (e, set, lt) = vid_is_set h in
        rw (set, lt→leb_false (length t.rel_var) _ lt)
          (ap (λ (l : List RelVar). get_elem? l i) (found_impl h))
    | inr h ↦ rw (vid_is_not_set h, ceiling_none h)
  ]

  -- GetVarElementCount on a well-formed table counts the elements of that same variable; the id it
  -- reports is FindRelationId's, and VAR_NOT_SET if there are no elements.
  pub get_var_element_count-ceiling : get_var_element_count t rid ≡ (
    length (ceiling rid (view t)),
    if is_empty (ceiling rid (view t)) then var_not_set else find_relation_id t rid,
  )
  unfolding get_var_element_count
  get_var_element_count-ceiling = elim (position_cases) [
    | inl h ↦ rw ((vid_is_set h).1, found_impl h) (by_shape (ceiling rid (view t)))
    | inr h ↦ rw (vid_is_not_set h, ceiling_none h)
  ]
    where
      by_shape :
          (l : List RelVar)
          → ◌≡◌ {A = ℕ × ℕ}
              (length l, if length l == 0 then var_not_set else find_relation_id t rid)
              (length l, if is_empty l then var_not_set else find_relation_id t rid)
      by_shape [] = refl
      by_shape (x ∷ xs) = rw (ne→==_false (length (x ∷ xs)) 0 (omega arith))
