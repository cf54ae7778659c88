-- ===== src/Cookie/Vars/Update.antt =====
-- What SetVar and ClearVar do to the view of the relation variables.
use elevator.Base.{
  ℕ, zero, suc, ◌^◌, ◌≤◌, ◌<◌, ◌≡◌, ◌≢◌, refl, sym, ap, ◌∙◌, arith, Bool, true, false, List, [],
  ◌∷◌, ltb, leb, ◌==◌, if◌then◌else◌, ◌||◌, ◌&&◌, not, length, get_or, set, inl, inr, Bool-cases,
  ltb→lt, ltb_false→le, ne→==_false, lt→leb_false, le→ltb_false, lt→ltb, le→leb, ==-refl,
}
use elevator.Cookie.Vars.{
  RelVar, RelVarImpl, VarTable, AllocationType, SetResult, key_at, blank_impl, var_not_set,
  find_relation_pos, is_empty, is_first, is_last, clear_var, store_element, set_at, insert_var,
  set_var,
}
use elevator.Cookie.Vars.View.{
  view, elements, update, touch, id_at, Ascending-mono, IsWellFormed, IsLowerBound,
  IsLowerBound-tail, update-set,
}
use elevator.Cookie.Vars.Search.{key_at-view, length-view, find_relation_pos-IsLowerBound}
use elevator.Cookie.Vars.Refine.{Holds, touch-Holds, insert-Holds}
use elevator.Cookie.Vars.Lookup.{found, passed, end, position, vid_is_set, vid_is_not_set}

-- Empty the first variable whose relation id is not below `rid`.
unfoldable pub clear_ceiling : ℕ → List RelVarImpl → List RelVarImpl
clear_ceiling rid [] = []
clear_ceiling rid (x ∷ xs) =
    if ltb x.relation_id rid then x ∷ clear_ceiling rid xs else touch (λ _. []) x ∷ xs

-- SetVar on the view.
unfoldable pub spec_set : ℕ → RelVar → AllocationType → ℕ → List RelVarImpl → List RelVarImpl
spec_set rid e alloc max_linear es =
    if is_empty e.value
    then (if is_last alloc then clear_ceiling rid es else es)
    else if is_first alloc && (length (elements rid es) == 1)
    then es
    else update rid (store_element alloc max_linear e) es

clear_ceiling-set :
    (es : List RelVarImpl) (rid pos : ℕ)
    → IsLowerBound (id_at es) (length es) rid pos
    → pos < length es
    → clear_ceiling rid es ≡ set es pos (touch (λ _. []) (get_or es pos blank_impl))
unfolding clear_ceiling
clear_ceiling-set [] rid pos b h = absurd (omega arith)
clear_ceiling-set (x ∷ xs) rid zero b h =
    rw (le→ltb_false x.relation_id rid (b.above 0 (omega arith) (omega arith)))
clear_ceiling-set (x ∷ xs) rid (suc pos) b h =
    rw (lt→ltb x.relation_id rid (b.below 0 (omega arith))) (
      ap (λ t. x ∷ t)
        (clear_ceiling-set xs rid pos (IsLowerBound-tail x xs rid pos b) (omega arith)))

clear_ceiling_end :
    (es : List RelVarImpl) (rid : ℕ)
    → IsLowerBound (id_at es) (length es) rid (length es)
    → clear_ceiling rid es ≡ es
unfolding clear_ceiling
clear_ceiling_end [] rid b = refl
clear_ceiling_end (x ∷ xs) rid b =
    rw (lt→ltb x.relation_id rid (b.below 0 (omega arith)))
      (ap (λ t. x ∷ t) (clear_ceiling_end xs rid (IsLowerBound-tail x xs rid (length xs) b)))

-- A position that holds `rid` is its lower bound.
pub IsLowerBound-of_key :
    (t : VarTable) (pos : ℕ)
    → IsWellFormed t
    → pos < length t.rel_var_sort
    → IsLowerBound (id_at (view t)) (length (view t)) (key_at t pos) pos
IsLowerBound-of_key t pos w h = record {
  within = omega (arith, length-view t);
  below = λ i p.
      rw (key_at-view t pos h) (Ascending-mono (view t) 0 i pos w.ascending p (rw length-view h));
  above = λ i p q. rw (key_at-view t pos h) (rises i p q);
}
  where
    rises : (i : ℕ) → pos ≤ i → i < length (view t) → id_at (view t) pos ≤ id_at (view t) i
    rises i p q = elim (Bool-cases (ltb pos i)) [
      | inl l ↦ let m = Ascending-mono (view t) 0 pos i w.ascending (ltb→lt _ _ l) q in omega arith
      | inr g ↦ let e : i ≡ pos = let k = ltb_false→le _ _ g in omega arith in rw e (omega arith)
    ]

module _ (t : VarTable) (rid : ℕ) (w : IsWellFormed t) where
  bound : IsLowerBound (id_at (view t)) (length (view t)) rid (find_relation_pos t rid)
  bound = find_relation_pos-IsLowerBound t rid w

  clear_at :
      find_relation_pos t rid < length t.rel_var_sort
      → Holds (clear_var t rid) (clear_ceiling rid (view t))
  unfolding clear_var
  clear_at h =
      let (e, s, lt) = vid_is_set t rid w h in
      rw (s, e)
        (rw
          (clear_ceiling-set (view t) rid (find_relation_pos t rid) bound (rw length-view h)
            ∙ sym (
                update-set (key_at t (find_relation_pos t rid)) (λ _. []) (view t)
                  (find_relation_pos t rid) (IsLowerBound-of_key t (find_relation_pos t rid) w h)
                  (rw length-view h) (sym (key_at-view t (find_relation_pos t rid) h))))
          (touch-Holds t w (λ _. []) (key_at t (find_relation_pos t rid)) (find_relation_pos t rid)
            (IsLowerBound-of_key t (find_relation_pos t rid) w h) h refl))

  -- ClearVar on a well-formed table empties the first variable whose relation id is not below the
  -- one given, whether or not it is the one given.
  pub clear_var-Holds : Holds (clear_var t rid) (clear_ceiling rid (view t))
  clear_var-Holds = elim (position t rid w) [
    | found h _ _ ↦ clear_at h
    | passed h _ _ ↦ clear_at h
    | end h _ ↦
        unfold clear_var in
        rw (vid_is_not_set t rid w h, at_end h) (record { well_formed = w; holds = refl })
  ]
    where
      at_end : find_relation_pos t rid ≡ length t.rel_var_sort → clear_ceiling rid (view t) ≡ view t
      at_end h = clear_ceiling_end (view t) rid (rw (h ∙ sym (length-view t)) at bound)

  -- The test by which SetVar inserts a new variable.
  pub found_test :
      find_relation_pos t rid < length t.rel_var_sort
      → key_at t (find_relation_pos t rid) ≡ rid
      → (leb (length t.rel_var) (find_relation_pos t rid)
          || not (key_at t (find_relation_pos t rid) == rid))
        ≡ false
  found_test h key = rw (
    lt→leb_false (length t.rel_var) (find_relation_pos t rid) (omega (arith, w.sizes)),
    key,
    ==-refl rid,
  )

  pub passed_test :
      find_relation_pos t rid < length t.rel_var_sort
      → rid < key_at t (find_relation_pos t rid)
      → (leb (length t.rel_var) (find_relation_pos t rid)
          || not (key_at t (find_relation_pos t rid) == rid))
        ≡ true
  passed_test h gt = rw (
    lt→leb_false (length t.rel_var) (find_relation_pos t rid) (omega (arith, w.sizes)),
    ne→==_false (key_at t (find_relation_pos t rid)) rid (omega arith),
  )

  pub end_test :
      find_relation_pos t rid ≡ length t.rel_var_sort
      → (leb (length t.rel_var) (find_relation_pos t rid)
          || not (key_at t (find_relation_pos t rid) == rid))
        ≡ true
  end_test h = rw (le→leb (length t.rel_var) (find_relation_pos t rid) (omega (arith, w.sizes, h)))

  module _ (e : RelVar) (alloc : AllocationType) (max_linear : ℕ) where
    set_here :
        find_relation_pos t rid < length t.rel_var_sort
        → key_at t (find_relation_pos t rid) ≡ rid
        → Holds
            (set_at t (get_or t.rel_var_sort (find_relation_pos t rid) 0) e alloc max_linear).table
            (update rid (store_element alloc max_linear e) (view t))
    unfolding set_at
    set_here h key =
        touch-Holds t w (store_element alloc max_linear e) rid (find_relation_pos t rid) bound h key

    set_new :
        rid < 2 ^ 16
        → (find_relation_pos t rid < length t.rel_var_sort
            → key_at t (find_relation_pos t rid) ≢ rid)
        → Holds
            (set_at
              (insert_var t (find_relation_pos t rid) rid)
              (length t.rel_var)
              e
              alloc
              max_linear).table
            (update rid (store_element alloc max_linear e) (view t))
    unfolding set_at
    set_new narrow ne =
        insert-Holds t w (store_element alloc max_linear e) rid (find_relation_pos t rid) narrow
          bound ne

    either :
        (b : Bool) (r : SetResult) (es : List RelVarImpl)
        → Holds r.table es
        → Holds
            (if b then record { table = t; var_id = var_not_set; stored = false } else r).table
            (if b then view t else es)
    either true r es h = record { well_formed = w; holds = refl }
    either false r es h = h

    -- SetVar on a well-formed table, for a 16-bit relation id, keeps it well-formed and changes the
    -- view as its specification says, in every branch.
    pub set_var-Holds :
        rid < 2 ^ 16
        → Holds (set_var t rid e alloc max_linear).table (spec_set rid e alloc max_linear (view t))
    unfolding set_var spec_set
    set_var-Holds narrow = elim (Bool-cases (is_empty e.value)) [
      | inl empty ↦ elim (Bool-cases (is_last alloc)) [
        | inl l ↦ rw (empty, l) clear_var-Holds
        | inr l ↦ rw (empty, l) (record { well_formed = w; holds = refl })
      ]
      | inr full ↦ elim (position t rid w) [
        | found h key els ↦ rw (full, found_test h key, els) (either _ _ _ (set_here h key))
        | passed h gt els ↦
            rw (full, passed_test h gt, els, first_absent)
              (set_new narrow (λ k q. absurd (omega arith)))
        | end h els ↦
            rw (full, end_test h, els, first_absent) (set_new narrow (λ k q. absurd (omega arith)))
      ]
    ]
      where
        first_absent : (is_first alloc && (length {A = RelVar} [] == 1)) ≡ false
        first_absent = ground arith
