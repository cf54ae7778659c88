-- ===== src/Cookie/Equal/Reflexive.antt =====
-- operator == on one cookie.
use elevator.Base.{
  ℕ, suc, ◌<◌, ◌≡◌, ◌≢◌, refl, true, false, List, [], ◌∷◌, ==-refl, length, get_or, All, done,
  Bytes, bytes_eq_refl,
}
use elevator.Cookie.{VCookie}
use elevator.Cookie.Equal.{same_ids, same_members, vcookie_eq, vcookie_ne}
use elevator.Cookie.Vars.{VarTable, impl_at, invalid_rid}
use elevator.Cookie.Vars.Read.{is_set}
use elevator.Cookie.Vars.View.{view, IsWellFormed}
use elevator.Cookie.Vars.Refine.{sort_in_range}
use elevator.Cookie.Vars.Walk.{get_var_element_count_self}
use elevator.Cookie.Equal.Agree.{Agrees, vcookie_eq_agree}

pub same_ids_refl : (ids : List Bytes) → same_ids ids ids ≡ true
unfolding same_ids
same_ids_refl [] = refl
same_ids_refl (p ∷ ps) = rw (bytes_eq_refl p) (same_ids_refl ps)

pub same_members_refl : (c : VCookie) → same_members c c ≡ true
unfolding same_members
same_members_refl c = simp (==-refl, bytes_eq_refl, same_ids_refl)

self-Agrees :
    (t : VarTable) (pos : ℕ)
    → IsWellFormed t
    → pos < length t.rel_var_sort
    → is_set (impl_at t pos) ≡ true
    → Agrees t t pos
self-Agrees t pos w h y = record {
  vid = get_or t.rel_var_sort pos 0;
  counted = get_var_element_count_self t pos w h y;
  there = sort_in_range t w pos h;
  same = refl;
}

equal_to_itself :
    (c : VCookie)
    → IsWellFormed c.table
    → All (λ x. x.relation_id ≢ invalid_rid) (view c.table)
    → vcookie_eq (suc (length c.table.rel_var_sort)) c c ≡ done true
equal_to_itself c w valid =
    vcookie_eq_agree c c w valid (λ pos h y. self-Agrees c.table pos w h y) (same_members_refl c)
      refl

-- A cookie with a well-formed table and no variable named INVALID_RID is equal to itself: within a
-- round for each variable and one more, operator == answers true and operator != false.
pub vcookie_eq_refl :
    (c : VCookie)
    → IsWellFormed c.table
    → All (λ x. x.relation_id ≢ invalid_rid) (view c.table)
    → (vcookie_eq (suc (length c.table.rel_var_sort)) c c ≡ done true)
      × (vcookie_ne (suc (length c.table.rel_var_sort)) c c ≡ done false)
unfolding vcookie_ne
vcookie_eq_refl c w valid = (equal_to_itself c w valid, rw (equal_to_itself c w valid) refl)
