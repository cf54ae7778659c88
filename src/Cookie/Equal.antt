-- ===== src/Cookie/Equal.antt =====
-- operator == on VCookie (abstraction/vcookie.h).
pub mod Agree
pub mod Reflexive
use elevator.Base.{
  not, ℕ, zero, suc, ◌≡◌, refl, inl, inr, arith, Bool, true, false, Bool-cases, List, [], ◌∷◌,
  Option, none, some, ◌==◌, ◌&&◌, if◌then◌else◌, Run, done, Bytes, bytes_eq, bytes_eq→eq,
}
use elevator.Base.Outcome.{◌>>=◌}
use elevator.Cookie.{VCookie, get_last_hit_time_visitor_local, get_purchase_id_count}
use elevator.Cookie.Vars.{RelVar, VarTable, invalid_rid}
use elevator.Cookie.Vars.Read.{
  get_first_set_var, get_next_set_var, get_var_element_count, get_var_by_id,
}

-- The loop over the purchase ids, whose counts are equal.
unfoldable pub same_ids : List Bytes → List Bytes → Bool
same_ids [] [] = true
same_ids [] (q ∷ qs) = false
same_ids (p ∷ ps) [] = false
same_ids (p ∷ ps) (q ∷ qs) = bytes_eq p q && same_ids ps qs

-- The comparisons before the relation variables.
unfoldable pub same_members : VCookie → VCookie → Bool
same_members a b =
    ((a.userid == b.userid) && ((a.visid_high == b.visid_high) && (a.visid_low == b.visid_low)))
    && (((a.last_hit_time_gmt == b.last_hit_time_gmt)
          && ((get_last_hit_time_visitor_local a == get_last_hit_time_visitor_local b)
              && ((a.first_hit_time_gmt == b.first_hit_time_gmt)
                  && (a.last_visit_num == b.last_visit_num))))
        && ((bytes_eq a.first_hit_referrer b.first_hit_referrer
              && (bytes_eq a.first_hit_page_url b.first_hit_page_url
                  && (bytes_eq a.first_hit_pagename b.first_hit_pagename
                      && ((a.last_purchase_num == b.last_purchase_num)
                          && (get_purchase_id_count a == get_purchase_id_count b)))))
            && (bytes_eq a.merchandising b.merchandising
                && same_ids a.purchase_ids b.purchase_ids)))

-- Two elements by their pointers; a null pointer is a fault.
unfoldable pub same_element : Option RelVar → Option RelVar → Run Bool
same_element none y = Run.fault
same_element (some x) none = Run.fault
same_element (some x) (some y) =
    done (bytes_eq x.value y.value && ((x.timestamp == y.timestamp) && (x.revision == y.revision)))

-- The loop over `i`; `left` elements remain.
unfoldable pub same_elements : VarTable → ℕ → VarTable → ℕ → ℕ → ℕ → Run Bool
same_elements a av b bv zero i = done true
same_elements a av b bv (suc left) i = do
  same ← same_element (get_var_by_id a av i) (get_var_by_id b bv i)
  if same then same_elements a av b bv left (suc i) else done false

-- The loop over the relation ids; both go on by the next id of `a`.
unfoldable pub same_vars : ℕ → VarTable → VarTable → ℕ → ℕ → Run Bool
same_vars zero a b ar br = Run.out_of_fuel
same_vars (suc fuel) a b ar br =
    let (ac, av) = get_var_element_count a ar in
    let (bc, bv) = get_var_element_count b br in
    let a_next = get_next_set_var a ar in
    let b_next = get_next_set_var a br in
    let rest = same_vars fuel a b a_next b_next in
    let round = do
      same ← same_elements a av b bv ac 0
      if same && (a_next == b_next) then rest else done false
    in if ar == invalid_rid then done true else (if ac == bc then round else done false)

unfoldable pub vcookie_eq : ℕ → VCookie → VCookie → Run Bool
vcookie_eq fuel a b =
    let ar = get_first_set_var a.table in
    let br = get_first_set_var b.table in
    let vars = same_vars fuel a.table b.table ar br in
    if same_members a b then (if ar == br then vars else done false) else done false

unfoldable pub vcookie_ne : ℕ → VCookie → VCookie → Run Bool
vcookie_ne fuel a b = do equal ← vcookie_eq fuel a b; done (not equal)

pub same_ids→eq : (ps qs : List Bytes) → same_ids ps qs ≡ true → ps ≡ qs
unfolding same_ids
same_ids→eq [] [] h = refl
same_ids→eq [] (q ∷ qs) h = cc
same_ids→eq (p ∷ ps) [] h = cc
same_ids→eq (p ∷ ps) (q ∷ qs) h = ground (arith, bytes_eq→eq p q, same_ids→eq ps qs)

same_members_of :
    (fuel : ℕ) (a b : VCookie) → vcookie_eq fuel a b ≡ done true → same_members a b ≡ true
unfolding vcookie_eq
same_members_of fuel a b h = elim (Bool-cases (same_members a b)) [
  | inl e ↦ e
  | inr e ↦ let k : done false ≡ done true = rw e at h in absurd (cc k)
]

-- Cookies that operator == finds equal agree on the visitor, on the time of the last hit and on the
-- purchase ids.
pub vcookie_eq-members :
    (fuel : ℕ) (a b : VCookie)
    → vcookie_eq fuel a b ≡ done true
    → ((a.userid ≡ b.userid) × (a.visid_high ≡ b.visid_high) × (a.visid_low ≡ b.visid_low))
      × (a.last_hit_time_gmt ≡ b.last_hit_time_gmt)
      × (a.purchase_ids ≡ b.purchase_ids)
vcookie_eq-members fuel a b h =
    let s = same_members_of fuel a b h in
    unfold same_members in ground (arith, s, same_ids→eq a.purchase_ids b.purchase_ids)
