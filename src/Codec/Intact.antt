-- ===== src/Codec/Intact.antt =====
-- What a cookie needs for Serialize to return bytes, and that Deserialize (abstraction/vcookiestore.cpp) leaves it so.
pub mod Read
pub mod Written
use elevator.Base.{
  ℕ, suc, ◌+◌, ◌^◌, ◌≤◌, ◌<◌, ◌≡◌, ◌≢◌, ◌⊎◌, refl, subst, sym, arith, Bool, true, false, List, [],
  ◌∷◌, ◌++◌, some, ◌==◌, ◌&&◌, if◌then◌else◌, ltb, leb, length, All, All-append, Bytes, Bool-cases,
  inl, inr, read_text, done,
}
use elevator.Cookie.{VCookie, set_purchase_id, set_cookie_var, add_cookie_element}
use elevator.Cookie.Purchases.{set_purchase_ids}
use elevator.Cookie.Purchases.Order.{Distinct, set_purchase_ids-IsValid}
use elevator.Cookie.Vars.{
  RelVar, RelVarImpl, VarTable, AllocationType, alloc_type_first, alloc_type_linear,
  alloc_type_last, var_not_set, invalid_rid, is_empty, is_first, is_last, set_var, clear_var,
  add_linear_element, store_element, pop_while, max_linear_infinite,
}
use elevator.Cookie.Vars.View.{view, elements, update, touch, fresh, IsWellFormed}
use elevator.Cookie.Vars.Refine.{Holds}
use elevator.Cookie.Vars.Update.{clear_ceiling, spec_set, clear_var-Holds, set_var-Holds}
use elevator.Cookie.Vars.Linear.{Names, add_linear_element-Holds}
use elevator.Cookie.Vars.Effect.{store_element_lem}
use elevator.Codec.Read.{deserialize}
use elevator.Codec.Invariant.{IsKept, IsStored}
use elevator.Codec.Total.{deserialize-Keeps}
use elevator.Codec.Valid.{
  AreBytes, Word, Between, alloc_of, read_word-fits, All-drop, set_purchase_ids-All, first_names,
}

-- A variable with a relation id other than INVALID_RID, and bytes in its values.
pub record IsIntactVar (x : RelVarImpl) : Type 0 where
  pub rid_valid : x.relation_id ≢ invalid_rid
  pub values : All (λ e. AreBytes e.value) x.var

pub record IsIntactTable (t : VarTable) : Type 0 where
  pub well_formed : IsWellFormed t
  pub vars : All IsIntactVar (view t)

pub record IsIntact (c : VCookie) : Type 0 where
  pub referrer : AreBytes c.first_hit_referrer
  pub page_url : AreBytes c.first_hit_page_url
  pub pagename : AreBytes c.first_hit_pagename
  pub merchandising_text : AreBytes c.merchandising
  pub ids : All AreBytes c.purchase_ids
  pub distinct : Distinct c.purchase_ids
  pub five : length c.purchase_ids ≤ 5
  pub table : IsIntactTable c.table

abbrev Values : List RelVar → Type 0
Values l = All (λ e. AreBytes e.value) l

pop_while-Values : (max_linear : ℕ) (l : List RelVar) → Values l → Values (pop_while max_linear l)
unfolding pop_while
pop_while-Values max_linear [] h = tt
pop_while-Values max_linear (x ∷ xs) (f, h) = elim (Bool-cases (leb max_linear (length (x ∷ xs)))) [
  | inl e ↦ rw e (pop_while-Values max_linear xs h)
  | inr e ↦ rw e (f, h)
]

store_element-Values :
    (alloc : AllocationType) (max_linear : ℕ) (e : RelVar) (l : List RelVar)
    → AreBytes e.value
    → Values l
    → Values (store_element alloc max_linear e l)
unfolding store_element
store_element-Values alloc_type_linear max_linear e l f h =
    elim (Bool-cases (max_linear == max_linear_infinite)) [
      | inl i ↦ rw i (All-append (λ (e : RelVar). AreBytes e.value) l (e ∷ []) h (f, tt))
      | inr i ↦ rw i (
          All-append (λ (e : RelVar). AreBytes e.value) (pop_while max_linear l) (e ∷ [])
            (pop_while-Values max_linear l h) (f, tt))
    ]
store_element-Values alloc_type_last max_linear e l f h =
    subst Values (sym (store_element_lem max_linear e l).2) (f, tt)
store_element-Values alloc_type_first max_linear e l f h =
    subst Values (sym (store_element_lem max_linear e l).3) (f, tt)

-- An update by a function that keeps the bytes in the values.
update-IsIntactVar :
    (rid : ℕ) (g : List RelVar → List RelVar) (es : List RelVarImpl)
    → rid ≢ invalid_rid
    → ((l : List RelVar) → Values l → Values (g l))
    → All IsIntactVar es
    → All IsIntactVar (update rid g es)
unfolding update
update-IsIntactVar rid g [] valid keep h = (record { rid_valid = valid; values = keep [] tt }, tt)
update-IsIntactVar rid g (x ∷ xs) valid keep (v, h) = elim (Bool-cases (x.relation_id == rid)) [
  | inl e ↦ rw e (record { rid_valid = v.rid_valid; values = keep x.var v.values }, h)
  | inr e ↦ elim (Bool-cases (ltb x.relation_id rid)) [
    | inl l ↦ rw (e, l) (v, update-IsIntactVar rid g xs valid keep h)
    | inr l ↦ rw (e, l) (record { rid_valid = valid; values = keep [] tt }, (v, h))
  ]
]

clear_ceiling-IsIntactVar :
    (rid : ℕ) (es : List RelVarImpl) → All IsIntactVar es → All IsIntactVar (clear_ceiling rid es)
unfolding clear_ceiling
clear_ceiling-IsIntactVar rid [] h = tt
clear_ceiling-IsIntactVar rid (x ∷ xs) (v, h) = elim (Bool-cases (ltb x.relation_id rid)) [
  | inl l ↦ rw l (v, clear_ceiling-IsIntactVar rid xs h)
  | inr l ↦ rw l (record { rid_valid = v.rid_valid; values = tt }, h)
]

spec_set-IsIntactVar :
    (rid : ℕ) (e : RelVar) (alloc : AllocationType) (max_linear : ℕ) (es : List RelVarImpl)
    → rid ≢ invalid_rid
    → AreBytes e.value
    → All IsIntactVar es
    → All IsIntactVar (spec_set rid e alloc max_linear es)
unfolding spec_set
spec_set-IsIntactVar rid e alloc max_linear es valid f h = elim (Bool-cases (is_empty e.value)) [
  | inl empty ↦ elim (Bool-cases (is_last alloc)) [
    | inl l ↦ rw (empty, l) (clear_ceiling-IsIntactVar rid es h)
    | inr l ↦ rw (empty, l) h
  ]
  | inr full ↦ elim (Bool-cases (is_first alloc && (length (elements rid es) == 1))) [
    | inl kept ↦ rw (full, kept) h
    | inr stored ↦
        rw (full, stored)
          (update-IsIntactVar rid (store_element alloc max_linear e) es valid
            (λ l k. store_element-Values alloc max_linear e l f k) h)
  ]
]

Holds-IsIntactTable :
    (t : VarTable) (es : List RelVarImpl) → Holds t es → All IsIntactVar es → IsIntactTable t
Holds-IsIntactTable t es h k = record {
  well_formed = h.well_formed;
  vars = subst (λ (l : List RelVarImpl). All IsIntactVar l) (sym h.holds) k;
}

pub set_var-IsIntactTable :
    (t : VarTable) (rid : ℕ) (e : RelVar) (alloc : AllocationType) (max_linear : ℕ)
    → rid < 2 ^ 16
    → rid ≢ invalid_rid
    → AreBytes e.value
    → IsIntactTable t
    → IsIntactTable (set_var t rid e alloc max_linear).table
set_var-IsIntactTable t rid e alloc max_linear narrow valid f h =
    Holds-IsIntactTable _ _ (set_var-Holds t rid h.well_formed e alloc max_linear narrow)
      (spec_set-IsIntactVar rid e alloc max_linear (view t) valid f h.vars)

pub clear_var-IsIntactTable :
    (t : VarTable) (rid : ℕ) → IsIntactTable t → IsIntactTable (clear_var t rid)
clear_var-IsIntactTable t rid h =
    Holds-IsIntactTable _ _ (clear_var-Holds t rid h.well_formed)
      (clear_ceiling-IsIntactVar rid (view t) h.vars)

pub add_linear_element-IsIntactTable :
    (t : VarTable) (rid v : ℕ) (e : RelVar)
    → rid ≢ invalid_rid
    → AreBytes e.value
    → IsIntactTable t
    → Names t v rid
    → IsIntactTable (add_linear_element t v e).0
add_linear_element-IsIntactTable t rid v e valid f h n =
    Holds-IsIntactTable _ _ (add_linear_element-Holds t rid v e h.well_formed n).0 (
      update-IsIntactVar rid (λ l. l ++ (e ∷ [])) (view t) valid
        (λ l k. All-append (λ (e : RelVar). AreBytes e.value) l (e ∷ []) k (f, tt)) h.vars)
