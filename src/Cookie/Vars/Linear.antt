-- ===== src/Cookie/Vars/Linear.antt =====
-- What AddLinearElement does to the view of the relation variables, with the id that SetVar returns.
use elevator.Base.{
  ℕ, ◌≤◌, ◌<◌, ◌≡◌, refl, sym, ap, ◌∙◌, subst, arith, true, false, List, [], ◌∷◌, ◌++◌, length,
  get_or, lt→leb_false, get_or-set_self, length-append, length-insert_at, get_or-append_end,
  get_or-insert_at,
}
use elevator.Cookie.Vars.{
  RelVar, RelVarImpl, VarTable, impl, key_at, blank_impl, put_impl, alloc_type_linear,
  find_relation_pos, is_empty, store_element, set_at, insert_var, set_var, add_linear_element,
}
use elevator.Cookie.Vars.View.{view, update, touch, fresh, id_at, IsWellFormed, IsLowerBound}
use elevator.Cookie.Vars.Refine.{Holds, sort_in_range, touch-Holds}
use elevator.Cookie.Vars.Lookup.{found, passed, end, position}
use elevator.Cookie.Vars.Update.{IsLowerBound-of_key, found_test, passed_test, end_test}

-- `v` is the VarId of the variable for `rid`.
pub record Names (t : VarTable) (v rid : ℕ) : Type 0 where
  pub pos : ℕ
  pub inside : pos < length t.rel_var_sort
  pub there : get_or t.rel_var_sort pos 0 ≡ v
  pub key : key_at t pos ≡ rid

put-Names :
    (t : VarTable) (v rid : ℕ) (g : List RelVar → List RelVar)
    → v < length t.rel_var
    → Names t v rid
    → Names (put_impl t v (touch g (impl t v))) v rid
put-Names t v rid g h n = record {
  pos = n.pos;
  inside = n.inside;
  there = n.there;
  key =
      ap (λ (u : ℕ). (impl (put_impl t v (touch g (impl t v))) u).relation_id) n.there
      ∙ ap (λ (r : RelVarImpl). r.relation_id)
          (get_or-set_self t.rel_var v (touch g (impl t v)) blank_impl h)
      ∙ ap (λ (u : ℕ). (impl t u).relation_id) (sym n.there)
      ∙ n.key;
}

pub Names-in_range :
    (t : VarTable) (v rid : ℕ) → IsWellFormed t → Names t v rid → v < length t.rel_var
Names-in_range t v rid w n = rw n.there at (sort_in_range t w n.pos n.inside)

-- AddLinearElement on a well-formed table appends to the variable that its id names, keeps the table
-- well-formed, says that it stored, and the id goes on naming the variable.
pub add_linear_element-Holds :
    (t : VarTable) (rid v : ℕ) (e : RelVar)
    → IsWellFormed t
    → Names t v rid
    → Holds (add_linear_element t v e).0 (update rid (λ l. l ++ (e ∷ [])) (view t))
      × Names (add_linear_element t v e).0 v rid
      × ((add_linear_element t v e).1 ≡ true)
unfolding add_linear_element
add_linear_element-Holds t rid v e w n =
    let h = Names-in_range t v rid w n in
    rw (lt→leb_false (length t.rel_var) v h) (
      subst
          (λ (u : ℕ).
            Holds (put_impl t u (touch append_e (impl t u))) (update rid append_e (view t)))
          n.there (touch-Holds t w append_e rid n.pos bound_at n.inside n.key),
      put-Names t v rid append_e h n,
      refl,
    )
  where
    append_e : List RelVar → List RelVar
    append_e l = l ++ (e ∷ [])

    bound_at : IsLowerBound (id_at (view t)) (length (view t)) rid n.pos
    bound_at =
        subst (λ (r : ℕ). IsLowerBound (id_at (view t)) (length (view t)) r n.pos) n.key
          (IsLowerBound-of_key t n.pos w n.inside)

-- The VarId that SetVar returns for a linear variable names it.
pub set_var-Names :
    (t : VarTable) (rid : ℕ) (e : RelVar) (max_linear : ℕ)
    → IsWellFormed t
    → is_empty e.value ≡ false
    → Names
        (set_var t rid e alloc_type_linear max_linear).table
        (set_var t rid e alloc_type_linear max_linear).var_id
        rid
unfolding set_var set_at insert_var
set_var-Names t rid e max_linear w full = elim (position t rid w) [
  | found h key els ↦
      rw (full, found_test t rid w h key)
        (put-Names t _ rid (store_element alloc_type_linear max_linear e)
          (sort_in_range t w (find_relation_pos t rid) h)
          (record { pos = find_relation_pos t rid; inside = h; there = refl; key = key }))
  | passed h gt els ↦ rw (full, passed_test t rid w h gt) (new (omega arith))
  | end h els ↦ rw (full, end_test t rid w h) (new (omega (arith, h)))
]
  where
    t' : VarTable
    t' = insert_var t (find_relation_pos t rid) rid

    new :
        find_relation_pos t rid ≤ length t.rel_var_sort
        → Names
            (put_impl t'
              (length t.rel_var)
              (touch (store_element alloc_type_linear max_linear e) (impl t' (length t.rel_var))))
            (length t.rel_var)
            rid
    new h =
        put-Names t' (length t.rel_var) rid (store_element alloc_type_linear max_linear e)
          (omega (arith, length-append t.rel_var (fresh rid ∷ [])))
          (record {
            pos = find_relation_pos t rid;
            inside = omega (
              arith,
              length-insert_at t.rel_var_sort (find_relation_pos t rid) (length t.rel_var),
            );
            there =
                get_or-insert_at t.rel_var_sort (find_relation_pos t rid) (length t.rel_var) 0 h;
            key =
                ap (λ (u : ℕ). (impl t' u).relation_id)
                  (get_or-insert_at t.rel_var_sort (find_relation_pos t rid) (length t.rel_var) 0 h)
                ∙ ap (λ (r : RelVarImpl). r.relation_id)
                    (get_or-append_end t.rel_var (fresh rid) blank_impl);
          })
