-- ===== src/Cookie/Vars/Search.antt =====
-- FindRelationPos finds the first position whose relation id is not below the one sought.
use elevator.Base.{
  ℕ, zero, suc, ◌+◌, ◌/◌, ◌%◌, ◌^◌, ◌≤◌, ◌<◌, ◌≡◌, refl, sym, ap, arith, inl, inr, Bool-cases,
  ltb→lt, ltb_false→le, ==_iff, ==_false→ne, ltb, ◌==◌, length, get_or-map, length-map, Run, done,
}
use native.Mathlib.Decide.{dec_lt}
use native.Mathlib.Nat.{le_refl}
use elevator.Cookie.Vars.{
  RelVarImpl, VarTable, impl, key_at, blank_impl, find_loop, search_pos, find_relation_pos,
}
use elevator.Cookie.Vars.View.{
  view, id_at, IsWellFormed, IsLowerBound, Ascending-mono, length-Ascending,
}

-- The loop's invariant, over `n` keys that rise.
module _ (key : ℕ → ℕ) (rid n : ℕ) (small : n ≤ 2 ^ 16) where
  record Inv (low high : ℕ) : Type 0 where
    ordered : low ≤ high
    inside : high ≤ n
    below : (i : ℕ) → i < low → key i < rid
    above : (i : ℕ) → high ≤ i → i < n → rid ≤ key i

  -- The midpoint does not wrap.
  abbrev mid : ℕ → ℕ → ℕ
  mid low high = (low + high) % 2 ^ 32 / 2

  module _ (mono : (i j : ℕ) → i < j → j < n → key i < key j) where
    module _ {low high : ℕ} (v : Inv low high) (lt : low < high) where
      mid_bounds : (low ≤ mid low high) × (mid low high < high) × (mid low high < n)
      mid_bounds = let b = v.inside in (omega arith, omega arith, omega arith)

      rises : (i j : ℕ) → i ≤ j → j < n → key i ≤ key j
      rises i j p q = elim (dec_lt i j) [
        | yes h ↦ let m = mono i j h q in omega arith
        | no h ↦ let e : i ≡ j = omega arith in rw e (le_refl _)
      ]

      hit : key (mid low high) ≡ rid → IsLowerBound key n rid (mid low high)
      hit e =
          let m = mid_bounds in
          record {
            within = omega arith;
            below = λ i p. let r = mono i (mid low high) p m.2 in omega arith;
            above = λ i p q. let r = rises (mid low high) i p q in omega arith;
          }

      left : rid ≤ key (mid low high) → Inv low (mid low high)
      left g =
          let m = mid_bounds in
          record {
            ordered = m.0;
            inside = omega arith;
            below = v.below;
            above = λ i p q. let r = rises (mid low high) i p q in omega arith;
          }

      right : key (mid low high) < rid → Inv (mid low high) high
      right g =
          let m = mid_bounds in
          record {
            ordered = omega arith;
            inside = v.inside;
            below = λ i p. let r = mono i (mid low high) p m.2 in omega arith;
            above = v.above;
          }

      at_end : mid low high ≡ low → key (mid low high) < rid → IsLowerBound key n rid high
      at_end e g =
          let b = v.inside in
          record {
            within = v.inside;
            below = λ i p. let r = rises i (mid low high) (omega arith) mid_bounds.2 in omega arith;
            above = v.above;
          }

    -- The search ends, at the lower bound.
    abbrev Ends : Run ℕ → Type 0
    Ends r = (pos : ℕ) × (r ≡ done pos) × IsLowerBound key n rid pos

    find_loop-Ends :
        (fuel low high : ℕ)
        → high < low + fuel
        → Inv low high
        → Ends (find_loop key rid fuel low high)
    unfolding find_loop
    find_loop-Ends zero low high f v = absurd (omega (arith, v.ordered))
    find_loop-Ends (suc fuel) low high f v = elim (Bool-cases (ltb low high)) [
      | inr e ↦ rw e (
        low,
        refl,
        record {
          within = let a = v.ordered in let b = v.inside in omega arith;
          below = v.below;
          above = λ i p q. v.above i (let g = ltb_false→le _ _ e in omega arith) q;
        },
      )
      | inl e ↦ elim (Bool-cases (key (mid low high) == rid)) [
        | inl found ↦
            rw (e, found) (mid low high, refl, hit v (ltb→lt _ _ e) ((==_iff _ _).0 found))
        | inr other ↦ elim (Bool-cases (ltb (key (mid low high)) rid)) [
          | inr greater ↦
              rw (e, other, greater)
                (find_loop-Ends fuel low (mid low high)
                  (let m = mid_bounds v (ltb→lt _ _ e) in omega arith)
                  (left v (ltb→lt _ _ e) (ltb_false→le _ _ greater)))
          | inl less ↦ elim (Bool-cases (mid low high == low)) [
            | inl stop ↦
                rw (e, other, less, stop)
                  (high, refl, at_end v (ltb→lt _ _ e) ((==_iff _ _).0 stop) (ltb→lt _ _ less))
            | inr go ↦
                rw (e, other, less, go)
                  (find_loop-Ends fuel (mid low high) high
                    (let m = mid_bounds v (ltb→lt _ _ e) in
                      let d = ==_false→ne _ _ go in omega arith)
                    (right v (ltb→lt _ _ e) (ltb→lt _ _ less)))
          ]
        ]
      ]
    ]

-- The keys that the search reads are the ids of the view.
pub key_at-view : (t : VarTable) (i : ℕ) → i < length t.rel_var_sort → key_at t i ≡ id_at (view t) i
key_at-view t i h =
    ap (λ (r : RelVarImpl). r.relation_id)
      (sym (get_or-map (impl t) t.rel_var_sort i 0 blank_impl h))

pub length-view : (t : VarTable) → length (view t) ≡ length t.rel_var_sort
length-view t = length-map (impl t) t.rel_var_sort

module _ (t : VarTable) (rid : ℕ) (w : IsWellFormed t) where
  size : length t.rel_var_sort ≤ 2 ^ 16
  size = rw (length-view t) at (length-Ascending (view t) w.ascending)

  mono : (i j : ℕ) → i < j → j < length t.rel_var_sort → key_at t i < key_at t j
  mono i j p q =
      rw (key_at-view t i (omega arith), key_at-view t j q)
        (Ascending-mono (view t) 0 i j w.ascending p (rw length-view q))

  first_round : Inv (key_at t) rid (length t.rel_var_sort) size 0 (length t.rel_var_sort)
  first_round = record {
    ordered = omega arith;
    inside = omega arith;
    below = λ i p. absurd (omega arith);
    above = λ i p q. absurd (omega arith);
  }

  -- On a well-formed table the binary search of FindRelationPos ends, within a round for each entry of the
  -- table and one more, and returns the first position whose relation id is not below the one sought.
  pub search_pos-IsLowerBound :
      (search_pos t rid ≡ done (find_relation_pos t rid))
      × IsLowerBound (id_at (view t)) (length (view t)) rid (find_relation_pos t rid)
  unfolding find_relation_pos search_pos
  search_pos-IsLowerBound =
      let (pos, e, b) =
        find_loop-Ends (key_at t) rid (length t.rel_var_sort) size mono
          (suc (length t.rel_var_sort)) 0 (length t.rel_var_sort) (omega arith) first_round in
      rw e (
        refl,
        record {
          within = rw length-view b.within;
          below = λ i p. rw (← key_at-view t i (omega (arith, b.within))) (b.below i p);
          above = λ i p q.
              let k : i < length t.rel_var_sort = rw length-view at q in
              rw (← key_at-view t i k) (b.above i p k);
        },
      )

  pub find_relation_pos-IsLowerBound :
      IsLowerBound (id_at (view t)) (length (view t)) rid (find_relation_pos t rid)
  find_relation_pos-IsLowerBound = search_pos-IsLowerBound.1
