-- ===== src/Codec/Keep.antt =====
-- SetVar and ClearVar leave the relation variables in the form that the format can hold.
use elevator.Base.{
  ℕ, ◌+◌, ◌^◌, ◌≤◌, ◌<◌, ◌≡◌, ◌≢◌, sym, subst, arith, false, List, [], ◌∷◌, ◌++◌, ◌==◌, ◌&&◌,
  length, All, All-append, Bool-cases, inl, inr, leb, ltb, length-append,
}
use elevator.Cookie.Vars.{
  RelVar, RelVarImpl, VarTable, AllocationType, alloc_type_linear, alloc_type_last,
  alloc_type_first, is_empty, is_first, is_last, set_var, clear_var, store_element, pop_while,
  invalid_rid, max_linear_infinite,
}
use elevator.Cookie.Vars.View.{view, elements, update, touch, fresh, IsWellFormed}
use elevator.Cookie.Vars.Update.{clear_ceiling, spec_set, clear_var-Holds, set_var-Holds}
use elevator.Cookie.Vars.Effect.{store_element_lem}
use elevator.Codec.AbsorbElements.{ElementFits, VarFits}

-- A deque that the format can hold.
pub record DequeFits (l : List RelVar) : Type 0 where
  pub count : length l < 2 ^ 32
  pub each : All ElementFits l

pop_while-fits :
    (max_linear : ℕ) (l : List RelVar)
    → All ElementFits l
    → All ElementFits (pop_while max_linear l) × (length (pop_while max_linear l) ≤ length l)
unfolding pop_while
pop_while-fits max_linear [] h = (tt, omega arith)
pop_while-fits max_linear (x ∷ xs) (f, h) = elim (Bool-cases (leb max_linear (length (x ∷ xs)))) [
  | inl e ↦
      let (all, shorter) = pop_while-fits max_linear xs h in rw e (all, omega (arith, shorter))
  | inr e ↦ rw e ((f, h), omega arith)
]

-- One more element, where the count has room for it.
store_element-fits :
    (alloc : AllocationType) (max_linear : ℕ) (e : RelVar) (l : List RelVar)
    → ElementFits e
    → DequeFits l
    → length l + 1 < 2 ^ 32
    → DequeFits (store_element alloc max_linear e l)
unfolding store_element
store_element-fits alloc_type_linear max_linear e l f d room =
    elim (Bool-cases (max_linear == max_linear_infinite)) [
      | inl i ↦ rw i (longer l d.each (omega arith))
      | inr i ↦
          let (all, shorter) = pop_while-fits max_linear l d.each in
          rw i (longer (pop_while max_linear l) all shorter)
    ]
  where
    longer : (k : List RelVar) → All ElementFits k → length k ≤ length l → DequeFits (k ++ (e ∷ []))
    longer k all h = record {
      count = omega (arith, length-append k (e ∷ []));
      each = All-append ElementFits k (e ∷ []) all (f, tt);
    }
store_element-fits alloc_type_last max_linear e l f d room =
    subst DequeFits (sym (store_element_lem max_linear e l).2)
      (record { count = omega arith; each = (f, tt) })
store_element-fits alloc_type_first max_linear e l f d room =
    subst DequeFits (sym (store_element_lem max_linear e l).3)
      (record { count = omega arith; each = (f, tt) })

touch-fits :
    (g : List RelVar → List RelVar) (x : RelVarImpl)
    → VarFits x
    → DequeFits (g x.var)
    → VarFits (touch g x)
touch-fits g x v d = record { rid_valid = v.rid_valid; count = d.count; each = d.each }

new-fits :
    (g : List RelVar → List RelVar) (rid : ℕ)
    → rid ≢ invalid_rid
    → DequeFits (g [])
    → VarFits (touch g (fresh rid))
new-fits g rid valid d = record { rid_valid = valid; count = d.count; each = d.each }

-- An update that gives a deque that fits for the deque of its id leaves all variables fitting.
update-fits :
    (rid : ℕ) (g : List RelVar → List RelVar) (es : List RelVarImpl)
    → rid ≢ invalid_rid
    → All VarFits es
    → DequeFits (g [])
    → DequeFits (g (elements rid es))
    → All VarFits (update rid g es)
unfolding update elements
update-fits rid g [] valid h n d = (new-fits g rid valid n, tt)
update-fits rid g (x ∷ xs) valid (v, h) n d = elim (Bool-cases (x.relation_id == rid)) [
  | inl e ↦ rw e (touch-fits g x v (rw e at d), h)
  | inr e ↦
      let further = update-fits rid g xs valid h n (rw e at d) in
      elim (Bool-cases (ltb x.relation_id rid)) [
        | inl l ↦ rw (e, l) (v, further)
        | inr l ↦ rw (e, l) (new-fits g rid valid n, (v, h))
      ]
]

elements-fits : (rid : ℕ) (es : List RelVarImpl) → All VarFits es → DequeFits (elements rid es)
unfolding elements
elements-fits rid [] h = record { count = omega arith; each = tt }
elements-fits rid (x ∷ xs) (v, h) = elim (Bool-cases (x.relation_id == rid)) [
  | inl e ↦ rw e (record { count = v.count; each = v.each })
  | inr e ↦ rw e (elements-fits rid xs h)
]

clear_ceiling-fits :
    (rid : ℕ) (es : List RelVarImpl) → All VarFits es → All VarFits (clear_ceiling rid es)
unfolding clear_ceiling
clear_ceiling-fits rid [] h = tt
clear_ceiling-fits rid (x ∷ xs) (v, h) = elim (Bool-cases (ltb x.relation_id rid)) [
  | inl l ↦ rw l (v, clear_ceiling-fits rid xs h)
  | inr l ↦ rw l (touch-fits (λ _. []) x v (record { count = omega arith; each = tt }), h)
]

spec_set-fits :
    (rid : ℕ) (e : RelVar) (alloc : AllocationType) (max_linear : ℕ) (es : List RelVarImpl)
    → rid ≢ invalid_rid
    → All VarFits es
    → (is_empty e.value ≡ false → ElementFits e)
    → length (elements rid es) + 1 < 2 ^ 32
    → All VarFits (spec_set rid e alloc max_linear es)
unfolding spec_set
spec_set-fits rid e alloc max_linear es valid h f room = elim (Bool-cases (is_empty e.value)) [
  | inl empty ↦ elim (Bool-cases (is_last alloc)) [
    | inl l ↦ rw (empty, l) (clear_ceiling-fits rid es h)
    | inr l ↦ rw (empty, l) h
  ]
  | inr full ↦ elim (Bool-cases (is_first alloc && (length (elements rid es) == 1))) [
    | inl kept ↦ rw (full, kept) h
    | inr stored ↦
        rw (full, stored)
          (update-fits rid (store_element alloc max_linear e) es valid h
            (store_element-fits alloc max_linear e [] (f full)
              (record { count = omega arith; each = tt }) (omega arith))
            (store_element-fits alloc max_linear e (elements rid es) (f full)
              (elements-fits rid es h) room))
  ]
]

-- SetVar on a well-formed table whose variables the format can hold, for a relation id that fits in 16
-- bits and is not the one that ends the list, with an element that fits or an empty value, and with
-- room for one more element, leaves such a table, in every branch; and so does ClearVar of any id.
pub set_var-VarFits :
    (t : VarTable) (rid : ℕ) (e : RelVar) (alloc : AllocationType) (max_linear : ℕ)
    → IsWellFormed t
    → All VarFits (view t)
    → rid < 2 ^ 16
    → rid ≢ invalid_rid
    → (is_empty e.value ≡ false → ElementFits e)
    → length (elements rid (view t)) + 1 < 2 ^ 32
    → (IsWellFormed (set_var t rid e alloc max_linear).table
        × All VarFits (view (set_var t rid e alloc max_linear).table))
      × (IsWellFormed (clear_var t rid) × All VarFits (view (clear_var t rid)))
set_var-VarFits t rid e alloc max_linear w h narrow valid f room =
    let s = set_var-Holds t rid w e alloc max_linear narrow in
    let c = clear_var-Holds t rid w in
    (
      (
        s.well_formed,
        subst (λ (es : List RelVarImpl). All VarFits es) (sym s.holds)
            (spec_set-fits rid e alloc max_linear (view t) valid h f room),
      ),
      (
        c.well_formed,
        subst (λ (es : List RelVarImpl). All VarFits es) (sym c.holds)
            (clear_ceiling-fits rid (view t) h),
      ),
    )
