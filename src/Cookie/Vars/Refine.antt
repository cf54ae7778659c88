-- ===== src/Cookie/Vars/Refine.antt =====
-- Changing or inserting a variable of the table is an update of its view.
use elevator.Base.{
  ℕ, zero, suc, ◌+◌, ◌^◌, ◌≤◌, ◌<◌, ◌≡◌, ◌≢◌, refl, sym, ap, ◌∙◌, arith, List, [], ◌∷◌, ◌++◌, map,
  ltb, length, get_or, set, insert_at, All, inl, inr, Bool-cases, ltb→lt, ltb_false→le, length-set,
  length-append, length-insert_at, get_or-map, get_or-append_left, get_or-append_end,
  get_or-set_self, get_or-set_ne, map_agree, map-insert_at, All-map_pred, All-insert_at, All-get_or,
}
use elevator.Cookie.Vars.{
  no_vars, RelVar, RelVarImpl, VarTable, impl, key_at, put_impl, blank_impl, insert_var,
}
use elevator.Cookie.Vars.View.{
  view, update, touch, fresh, id_at, Ascending-lower, Ascending-mono, length-Ascending,
  IsWellFormed, IsLowerBound, update-insert_at, update-set, update-Ascending,
}
use elevator.Cookie.Vars.Search.{key_at-view, length-view}

-- `t` is a well-formed table that holds the variables `es`.
pub record Holds (t : VarTable) (es : List RelVarImpl) : Type 0 where
  pub well_formed : IsWellFormed t
  pub holds : view t ≡ es

map-set :
    (xs : List RelVarImpl) (ws : List ℕ) (pos v : ℕ) (rv d : RelVarImpl)
    → v < length xs
    → pos < length ws
    → get_or ws pos 0 ≡ v
    → ((j : ℕ) → j < length ws → j ≢ pos → get_or ws j 0 ≢ v)
    → map (λ w. get_or (set xs v rv) w d) ws ≡ set (map (λ w. get_or xs w d) ws) pos rv
map-set xs [] pos v rv d hv hp e ne = absurd (omega arith)
map-set xs (w ∷ ws) zero v rv d hv hp e ne = rw e (λ i.
    get_or-set_self xs v rv d hv i
    ∷ map_agree (λ w. get_or (set xs v rv) w d) (λ w. get_or xs w d) ws
        (others ws (λ j h. ne (suc j) (omega arith) (omega arith))) i)
  where
    others :
        (ws : List ℕ)
        → ((j : ℕ) → j < length ws → get_or ws j 0 ≢ v)
        → All (λ w. get_or (set xs v rv) w d ≡ get_or xs w d) ws
    others [] k = tt
    others (w ∷ ws) k = (
      get_or-set_ne xs v w rv d (λ p. k 0 (omega arith) (sym p)),
      others ws (λ j h. k (suc j) (omega arith)),
    )
map-set xs (w ∷ ws) (suc pos) v rv d hv hp e ne = λ i.
    get_or-set_ne xs v w rv d (λ p. ne 0 (omega arith) (omega arith) (sym p)) i
    ∷ map-set xs ws pos v rv d hv (omega arith) e (λ j h k. ne (suc j) (omega arith) (omega arith))
        i

module _ (t : VarTable) (w : IsWellFormed t) where
  pub table_small : length t.rel_var ≤ 2 ^ 16
  table_small = omega (arith, w.sizes, length-view t, length-Ascending (view t) w.ascending)

  -- A position's entry names a variable, and no other position names the same.
  pub sort_in_range :
      (pos : ℕ) → pos < length t.rel_var_sort → get_or t.rel_var_sort pos 0 < length t.rel_var
  sort_in_range pos h = All-get_or (λ v. v < length t.rel_var) t.rel_var_sort pos 0 w.in_range h

  sort_distinct :
      (i j : ℕ)
      → i < length t.rel_var_sort
      → j < length t.rel_var_sort
      → i ≢ j
      → get_or t.rel_var_sort i 0 ≢ get_or t.rel_var_sort j 0
  sort_distinct i j hi hj ne e = elim (Bool-cases (ltb i j)) [
    | inl l ↦ differ i j (ltb→lt _ _ l) hj e
    | inr g ↦ differ j i (let b = ltb_false→le _ _ g in omega arith) hi (sym e)
  ]
    where
      differ :
          (i j : ℕ)
          → i < j
          → j < length t.rel_var_sort
          → get_or t.rel_var_sort i 0 ≡ get_or t.rel_var_sort j 0
          → ⊥
      differ i j p hj e =
          let m : id_at (view t) i < id_at (view t) j =
            Ascending-mono (view t) 0 i j w.ascending p (rw length-view hj) in
          let ki = key_at-view t i (omega arith) in
          let kj = key_at-view t j hj in
          let same : key_at t i ≡ key_at t j = ap (λ (v : ℕ). (impl t v).relation_id) e in
          omega arith

  -- Changing the variable at the position of `rid` is an update of the view.
  pub touch-Holds :
      (g : List RelVar → List RelVar) (rid pos : ℕ)
      → IsLowerBound (id_at (view t)) (length (view t)) rid pos
      → pos < length t.rel_var_sort
      → key_at t pos ≡ rid
      → Holds
          (put_impl t
            (get_or t.rel_var_sort pos 0)
            (touch g (impl t (get_or t.rel_var_sort pos 0))))
          (update rid g (view t))
  touch-Holds g rid pos b hp e = record {
    well_formed = record {
      sizes = length-set t.rel_var v rv ∙ w.sizes;
      in_range = rw length-set w.in_range;
      ascending = rw same (update-Ascending rid g (view t) 0 w.ascending (omega arith) narrow);
    };
    holds = same;
  }
    where
      v : ℕ
      v = get_or t.rel_var_sort pos 0

      rv : RelVarImpl
      rv = touch g (impl t v)

      inside : pos < length (view t)
      inside = rw length-view hp

      at_pos : get_or (view t) pos blank_impl ≡ impl t v
      at_pos = get_or-map (impl t) t.rel_var_sort pos 0 blank_impl hp

      here : id_at (view t) pos ≡ rid
      here = sym (key_at-view t pos hp) ∙ e

      narrow : rid < 2 ^ 16
      narrow = let k = (Ascending-lower (view t) 0 pos w.ascending inside).1 in omega (arith, here)

      same : view (put_impl t v rv) ≡ update rid g (view t)
      same =
          map-set t.rel_var t.rel_var_sort pos v rv blank_impl (sort_in_range pos hp) hp refl
            (λ j h n. sort_distinct j pos h hp n)
          ∙ ap (λ (r : RelVarImpl). set (view t) pos (touch g r)) (sym at_pos)
          ∙ sym (update-set rid g (view t) pos b inside here)

  -- So is inserting a variable for a new `rid` and changing it.
  pub insert-Holds :
      (g : List RelVar → List RelVar) (rid pos : ℕ)
      → rid < 2 ^ 16
      → IsLowerBound (id_at (view t)) (length (view t)) rid pos
      → (pos < length t.rel_var_sort → key_at t pos ≢ rid)
      → Holds
          (put_impl
            (insert_var t pos rid)
            (length t.rel_var)
            (touch g (impl (insert_var t pos rid) (length t.rel_var))))
          (update rid g (view t))
  unfolding insert_var
  insert-Holds g rid pos narrow b ne = record {
    well_formed = record {
      sizes = omega (
        arith,
        w.sizes,
        length-set (t.rel_var ++ (fresh rid ∷ [])) size rv,
        length-append t.rel_var (fresh rid ∷ []),
        length-insert_at t.rel_var_sort pos size,
      );
      in_range =
          rw (length-set, length-append)
            (All-insert_at (λ v. v < size + 1) t.rel_var_sort pos size (omega arith)
              (All-map_pred (λ v h. omega arith) t.rel_var_sort w.in_range));
      ascending = rw same (update-Ascending rid g (view t) 0 w.ascending (omega arith) narrow);
    };
    holds = same;
  }
    where
      size : ℕ
      size = length t.rel_var

      rv : RelVarImpl
      rv = touch g (get_or (t.rel_var ++ (fresh rid ∷ [])) size blank_impl)

      inside : size < length (t.rel_var ++ (fresh rid ∷ []))
      inside = omega (arith, length-append t.rel_var (fresh rid ∷ []))

      old :
          (ws : List ℕ)
          → All (λ v. v < size) ws
          → All
              (λ v. get_or (set (t.rel_var ++ (fresh rid ∷ [])) size rv) v blank_impl ≡ impl t v)
              ws
      old [] h = tt
      old (v ∷ vs) (p, h) = (
        get_or-set_ne (t.rel_var ++ (fresh rid ∷ [])) size v rv blank_impl (omega arith)
            ∙ get_or-append_left t.rel_var (fresh rid ∷ []) v blank_impl p,
        old vs h,
      )

      absent : pos < length (view t) → id_at (view t) pos ≢ rid
      absent h e =
          let k : pos < length t.rel_var_sort = rw length-view at h in
          ne k (key_at-view t pos k ∙ e)

      same : view (put_impl (insert_var t pos rid) size rv) ≡ update rid g (view t)
      same =
          map-insert_at (λ v. get_or (set (t.rel_var ++ (fresh rid ∷ [])) size rv) v blank_impl)
            t.rel_var_sort pos size
          ∙ (λ i.
              insert_at (map_agree _ (impl t) t.rel_var_sort (old t.rel_var_sort w.in_range) i) pos
                (get_or-set_self (t.rel_var ++ (fresh rid ∷ [])) size rv blank_impl inside i))
          ∙ ap (λ (r : RelVarImpl). insert_at (view t) pos (touch g r))
              (get_or-append_end t.rel_var (fresh rid) blank_impl)
          ∙ sym (update-insert_at rid g (view t) pos b absent)

-- The table of a new cookie holds nothing.
pub no_vars-Holds : Holds no_vars []
no_vars-Holds = record {
  well_formed = record { sizes = refl; in_range = tt; ascending = tt };
  holds = refl;
}
