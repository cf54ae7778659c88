-- ===== src/Cookie/Vars/Walk.antt =====
-- GetFirstSetVar and GetNextSetVar, and the two for modified variables, walk the view in order.
use elevator.Base.{
  not, false, ◌-◌, ℕ, zero, suc, ◌+◌, ◌≤◌, ◌<◌, ◌≡◌, refl, ap, ◌∙◌, arith, Bool, true, List, [],
  ◌∷◌, ◌==◌, ltb, if◌then◌else◌, length, get_or, drop, get_or-map, lt→ltb, le→ltb_false, ==-refl,
  ne→==_false, inl, inr, Bool-cases, ==_iff, ltb→lt, ltb_false→le,
}
use native.Mathlib.Numerals.{add-one}
use elevator.Cookie.Vars.{
  RelVar, is_empty, var_not_set, find_relation_id, RelVarImpl, VarTable, impl, impl_at, key_at,
  blank_impl, invalid_rid, find_relation_pos,
}
use elevator.Cookie.Vars.Read.{
  get_var_element_count, is_set, scan, get_set_var, get_modified_var, next_pos, get_first_set_var,
  get_next_set_var, get_next_modified_var,
}
use elevator.Cookie.Vars.View.{view, id_at, Ascending-mono, IsWellFormed, IsLowerBound}
use elevator.Cookie.Vars.Lookup.{vid_is_set, found, passed, end, position}
use elevator.Cookie.Vars.Refine.{table_small, sort_in_range}
use elevator.Cookie.Vars.Search.{key_at-view, length-view, find_relation_pos-IsLowerBound}

-- The relation id of the first variable that passes, or INVALID_RID.
unfoldable pub first_id : (RelVarImpl → Bool) → List RelVarImpl → ℕ
first_id test [] = invalid_rid
first_id test (x ∷ xs) = if test x then x.relation_id else first_id test xs

-- The variables above `rid`.
unfoldable pub later : ℕ → List RelVarImpl → List RelVarImpl
later rid [] = []
later rid (x ∷ xs) = if ltb rid x.relation_id then x ∷ xs else later rid xs

pub drop-get_or {ℓ} :
    {A : Type ℓ} (xs : List A) (i : ℕ) (d : A)
    → i < length xs
    → drop i xs ≡ get_or xs i d ∷ drop (suc i) xs
drop-get_or [] i d h = absurd (omega arith)
drop-get_or (x ∷ xs) zero d h = refl
drop-get_or (x ∷ xs) (suc i) d h = drop-get_or xs i d (omega arith)

pub drop_all {ℓ} : {A : Type ℓ} (xs : List A) (i : ℕ) → length xs ≤ i → drop i xs ≡ []
drop_all [] zero h = refl
drop_all [] (suc i) h = refl
drop_all (x ∷ xs) zero h = absurd (omega arith)
drop_all (x ∷ xs) (suc i) h = drop_all xs i (omega arith)

-- The variable at a position, in the view.
pub impl_at-view :
    (t : VarTable) (pos : ℕ)
    → pos < length t.rel_var_sort
    → get_or (view t) pos blank_impl ≡ impl_at t pos
impl_at-view t pos h = get_or-map (impl t) t.rel_var_sort pos 0 blank_impl h

pub drop-view :
    (t : VarTable) (pos : ℕ)
    → pos < length t.rel_var_sort
    → drop pos (view t) ≡ impl_at t pos ∷ drop (suc pos) (view t)
drop-view t pos h =
    drop-get_or (view t) pos blank_impl (rw length-view h)
    ∙ ap (λ (r : RelVarImpl). r ∷ drop (suc pos) (view t)) (impl_at-view t pos h)

pub scan_lem :
    (t : VarTable) (test : RelVarImpl → Bool) (left pos : ℕ)
    → pos + left ≡ length t.rel_var_sort
    → scan t test left pos ≡ first_id test (drop pos (view t))
unfolding scan first_id
scan_lem t test zero pos h = rw (drop_all (view t) pos (omega (arith, length-view t)))
scan_lem t test (suc left) pos h =
    rw (drop-view t pos (omega arith), scan_lem t test left (pos + 1) (omega arith), add-one pos)

module _ (t : VarTable) (pos : ℕ) (w : IsWellFormed t) (h : pos < length t.rel_var_sort) where
  -- The search for the id at a position ends there.
  pub find_relation_pos_self : find_relation_pos t (key_at t pos) ≡ pos
  find_relation_pos_self = omega (arith, not_above, not_below)
    where
      b :
          IsLowerBound
            (id_at (view t))
            (length (view t))
            (key_at t pos)
            (find_relation_pos t (key_at t pos))
      b = find_relation_pos-IsLowerBound t (key_at t pos) w

      not_above : ¬ (pos < find_relation_pos t (key_at t pos))
      not_above k = let l = b.below pos k in omega (arith, key_at-view t pos h)

      not_below : ¬ (find_relation_pos t (key_at t pos) < pos)
      not_below k =
          let a =
            b.above (find_relation_pos t (key_at t pos)) (omega arith)
              (omega (arith, length-view t)) in
          let m =
            Ascending-mono (view t) 0 (find_relation_pos t (key_at t pos)) pos w.ascending k
              (rw length-view h) in
          omega (arith, key_at-view t pos h)

  -- Past the id at a position the walk goes on at the next.
  pub next_pos_self : next_pos t (key_at t pos) ≡ suc pos
  unfolding next_pos
  next_pos_self =
      rw (find_relation_pos_self, lt→ltb pos (length t.rel_var_sort) h, ==-refl (key_at t pos))
        (add-one pos)

  pub get_next_set_var_self :
      get_next_set_var t (key_at t pos) ≡ scan t is_set (length t.rel_var_sort - suc pos) (suc pos)
  unfolding get_next_set_var get_set_var
  get_next_set_var_self = rw next_pos_self

  -- GetVarElementCount for the id at a position whose variable is not empty.
  pub get_var_element_count_self :
      is_set (impl_at t pos) ≡ true
      → get_var_element_count t (key_at t pos)
        ≡ (length (impl_at t pos).var, get_or t.rel_var_sort pos 0)
  unfolding get_var_element_count
  get_var_element_count_self y = rw (
    this,
    ne→==_false (get_or t.rel_var_sort pos 0) var_not_set
        (omega (arith, sort_in_range t w pos h, table_small t w)),
    not_empty (impl_at t pos).var y,
  )
    where
      this : find_relation_id t (key_at t pos) ≡ get_or t.rel_var_sort pos 0
      this =
          (vid_is_set t (key_at t pos) w (rw find_relation_pos_self h)).0
          ∙ ap (λ (p : ℕ). get_or t.rel_var_sort p 0) find_relation_pos_self

      not_empty : (l : List RelVar) → not (is_empty l) ≡ true → (length l == 0) ≡ false
      not_empty [] e = cc
      not_empty (x ∷ xs) e = ne→==_false (length (x ∷ xs)) 0 (omega arith)

later-drop :
    (es : List RelVarImpl) (rid p : ℕ)
    → p ≤ length es
    → ((i : ℕ) → i < p → id_at es i ≤ rid)
    → (p < length es → rid < id_at es p)
    → drop p es ≡ later rid es
unfolding later
later-drop [] rid zero h below above = refl
later-drop [] rid (suc p) h below above = absurd (omega arith)
later-drop (x ∷ xs) rid zero h below above = rw (lt→ltb rid x.relation_id (above (omega arith)))
later-drop (x ∷ xs) rid (suc p) h below above =
    rw (le→ltb_false rid x.relation_id (below 0 (omega arith))) (
      later-drop xs rid p (omega arith) (λ i k. below (suc i) (omega arith))
        (λ k. above (omega arith)))

-- The position behind `rid` starts the variables above it.
later-next_pos :
    (t : VarTable) (rid : ℕ)
    → IsWellFormed t
    → (next_pos t rid ≤ length t.rel_var_sort)
      × (drop (next_pos t rid) (view t) ≡ later rid (view t))
unfolding next_pos
later-next_pos t rid w = elim (position t rid w) [
  | found h key _ ↦
      let step = key_at-view t (find_relation_pos t rid) h in
      rw
        (
          lt→ltb (find_relation_pos t rid) (length t.rel_var_sort) h,
          equal key,
          add-one (find_relation_pos t rid),
        )
        (
          h,
          later-drop (view t) rid (suc (find_relation_pos t rid)) (omega (arith, length-view t))
              (upto h key)
              (λ k.
                let m =
                  Ascending-mono (view t) 0 (find_relation_pos t rid)
                    (suc (find_relation_pos t rid)) w.ascending (omega arith) k in
                omega arith),
        )
  | passed h gt _ ↦
      rw
        (
          lt→ltb (find_relation_pos t rid) (length t.rel_var_sort) h,
          ne→==_false (key_at t (find_relation_pos t rid)) rid (omega arith),
        )
        (
          omega arith,
          later-drop (view t) rid (find_relation_pos t rid) b.within
              (λ i k. let l = b.below i k in omega arith)
              (λ k. let e = key_at-view t (find_relation_pos t rid) h in omega arith),
        )
  | end h _ ↦
      rw (le→ltb_false (find_relation_pos t rid) (length t.rel_var_sort) (omega (arith, h))) (
        omega (arith, h),
        later-drop (view t) rid (find_relation_pos t rid) b.within
            (λ i k. let l = b.below i k in omega arith)
            (λ k. absurd (omega (arith, h, length-view t))),
      )
]
  where
    b : IsLowerBound (id_at (view t)) (length (view t)) rid (find_relation_pos t rid)
    b = find_relation_pos-IsLowerBound t rid w

    equal :
        key_at t (find_relation_pos t rid) ≡ rid
        → (key_at t (find_relation_pos t rid) == rid) ≡ true
    equal e = (==_iff _ _).1 e

    upto :
        find_relation_pos t rid < length t.rel_var_sort
        → key_at t (find_relation_pos t rid) ≡ rid
        → (i : ℕ) → i < suc (find_relation_pos t rid)
        → id_at (view t) i ≤ rid
    upto h key i k = elim (Bool-cases (ltb i (find_relation_pos t rid))) [
      | inl l ↦ let m = b.below i (ltb→lt _ _ l) in omega arith
      | inr g ↦
          let e : i ≡ find_relation_pos t rid = let n = ltb_false→le _ _ g in omega arith in
          rw e (omega (arith, key_at-view t (find_relation_pos t rid) h))
    ]

module _ (t : VarTable) (rid : ℕ) (w : IsWellFormed t) where
  -- GetNextSetVar on a well-formed table returns the least relation id above `rid` whose variable is
  -- not empty, or INVALID_RID, whether or not `rid` is there.
  pub get_next_set_var_lem : get_next_set_var t rid ≡ first_id is_set (later rid (view t))
  unfolding get_next_set_var get_set_var
  get_next_set_var_lem =
      let n = later-next_pos t rid w in
      scan_lem t is_set _ (next_pos t rid) (let k = n.0 in omega arith) ∙ ap (first_id is_set) n.1

  -- GetNextModifiedVar on a well-formed table returns the least relation id above `rid` whose
  -- variable is marked as modified, or INVALID_RID.
  pub get_next_modified_var_lem :
      get_next_modified_var t rid ≡ first_id (λ rv. rv.modified) (later rid (view t))
  unfolding get_next_modified_var get_modified_var
  get_next_modified_var_lem =
      let n = later-next_pos t rid w in
      scan_lem t (λ rv. rv.modified) _ (next_pos t rid) (let k = n.0 in omega arith)
      ∙ ap (first_id (λ rv. rv.modified)) n.1

pub get_first_set_var_lem : (t : VarTable) → get_first_set_var t ≡ first_id is_set (view t)
unfolding get_first_set_var get_set_var
get_first_set_var_lem t = scan_lem t is_set _ 0 (omega arith)
