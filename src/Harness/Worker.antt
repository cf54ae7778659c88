-- ===== src/Harness/Worker.antt =====
-- What WorkerThread of the test harness (testharness.cpp) does with a hit.
pub mod Visits
pub mod Loop
pub mod Stored
pub mod Visitors
pub mod Changes
pub mod Served
pub mod Ends
pub mod Finish
use elevator.Base.{
  ℕ, ◌+◌, ◌-◌, ◌%◌, ◌^◌, Bool, not, List, [], ◌∷◌, Option, none, some, ◌==◌, if◌then◌else◌, Bytes,
  bytes_eq, Run, done,
}
use elevator.Base.Outcome.{◌>>=◌}
use elevator.Cookie.{
  VCookie, construct, set_first_hit_time_gmt, set_first_hit_referrer, set_first_hit_url,
  set_first_hit_pagename, set_last_hit_time_gmt, set_last_hit_time_visitor_local,
  set_last_visit_num, set_last_purchase_time_gmt, set_last_purchase_num, set_purchase_id,
  set_cookie_var, clear_cookie_var,
}
use elevator.Cookie.Vars.{RelVar, alloc_type_first, max_linear_not_set, is_empty}
use elevator.Cookie.Vars.Read.{get_var}
use elevator.Harness.Hits.{HitData}
use elevator.Store.{VCookieStore}

-- The members of a new cookie that are set once.
abbrev pub set_first_hit : VCookie → HitData → VCookie
set_first_hit c hit =
    set_first_hit_pagename
      (set_first_hit_url
        (set_first_hit_referrer (set_first_hit_time_gmt c hit.hit_time_gmt) hit.referrer)
        hit.page_url)
      hit.page_name

-- hit_time_gmt - 7*60*60, as a time_t
abbrev pub local_time : ℕ → ℕ
local_time t = (t + (2 ^ 64 - 25200)) % 2 ^ 64

abbrev pub count_purchase : VCookie → Bytes → VCookie
count_purchase c id =
    (set_purchase_id (set_last_purchase_num c ((c.last_purchase_num + 1) % 2 ^ 32)) id).0

-- An evar of the hit, by what GetVar answers for it.
abbrev pub set_found : VCookie → ℕ → ℕ → Bytes → Option RelVar → VCookie
set_found c i hit_time value none = c
set_found c i hit_time value (some rv) =
    if bytes_eq rv.value value
    then c
    else (set_cookie_var c i (record { value = value; timestamp = hit_time; revision = 1 })
        alloc_type_first max_linear_not_set).0

unfoldable pub set_evar : VCookie → ℕ → ℕ → Bytes → VCookie
set_evar c i hit_time value =
    if is_empty value
    then clear_cookie_var c i
    else set_found c i hit_time value (get_var c.table i 0)

-- The loop over the evars, from `i` on
unfoldable pub set_evars : VCookie → ℕ → ℕ → List Bytes → VCookie
unfolding set_evar
set_evars c i hit_time [] = c
set_evars c i hit_time (value ∷ evars) =
    set_evars (set_evar c i hit_time value) (i + 1) hit_time evars

-- What comes between the constructor and the loop over the evars.
unfoldable pub before_evars : VCookie → HitData → VCookie
before_evars c hit =
    let c1 = if c.new_cookie then set_first_hit c hit else c in
    let c2 = set_last_hit_time_gmt c1 hit.hit_time_gmt in
    let c3 = set_last_hit_time_visitor_local c2 (local_time hit.hit_time_gmt) in
    let c4 = set_last_visit_num c3 (hit.visit_num % 2 ^ 32) in
    let c5 =
      if hit.purchase_time_gmt == 0
      then c4
      else set_last_purchase_time_gmt c4 hit.purchase_time_gmt in
    if is_empty hit.purchaseid then c5 else count_purchase c5 hit.purchaseid

-- What comes between the constructor and Store.
unfoldable pub update_cookie : VCookie → HitData → VCookie
unfolding before_evars set_evars
update_cookie c hit = set_evars (before_evars c hit) 0 hit.hit_time_gmt hit.evar

-- One hit: the cookie is loaded, changed and stored. Store leaves no flag set, so that its destructor
-- does nothing.
unfoldable pub process_hit : (store : VCookieStore) → store.State → HitData → Run store.State
process_hit store s hit = do
  c ← construct (store.load_vcookie s) hit.rsid hit.visid_high hit.visid_low hit.visid_new
  (s', saved) ← store.save_vcookie s (update_cookie c hit)
  done s'
