-- ===== src/Harness/Worker/Changes.antt =====
-- The changes that a hit makes leave a cookie intact (WorkerThread of testharness.cpp).
use elevator.Base.{
  ℕ, ◌+◌, ◌^◌, ◌<◌, ◌≡◌, refl, subst, sym, arith, Bool, true, false, List, [], ◌∷◌, Option, none,
  some, ◌==◌, if◌then◌else◌, length, All, Bytes, bytes_eq,
}
use elevator.Cookie.{VCookie, set_cookie_var, clear_cookie_var}
use elevator.Cookie.Vars.{
  RelVar, alloc_type_first, max_linear_not_set, invalid_rid, is_empty, set_var, clear_var,
}
use elevator.Cookie.Vars.Read.{get_var}
use elevator.Codec.Valid.{AreBytes}
use elevator.Codec.Intact.{IsIntact, set_var-IsIntactTable, clear_var-IsIntactTable}
use elevator.Codec.Intact.Read.{set_purchase_id-IsIntact, with_table-IsIntact}
use elevator.Harness.Hits.{HitData}
use elevator.Harness.Worker.{
  before_evars, set_first_hit, count_purchase, set_found, set_evar, set_evars, update_cookie,
}

-- The texts of a hit are bytes, and there are fewer evars than relation ids.
pub record IsHit (hit : HitData) : Type 0 where
  pub referrer : AreBytes hit.referrer
  pub page_url : AreBytes hit.page_url
  pub page_name : AreBytes hit.page_name
  pub purchaseid : AreBytes hit.purchaseid
  pub evars : All AreBytes hit.evar
  pub evar_count : length hit.evar < 2 ^ 16

set_first_hit-IsIntact :
    (c : VCookie) (hit : HitData) → IsHit hit → IsIntact c → IsIntact (set_first_hit c hit)
set_first_hit-IsIntact c hit f h = record {
  referrer = f.referrer;
  page_url = f.page_url;
  pagename = f.page_name;
  merchandising_text = h.merchandising_text;
  ids = h.ids;
  distinct = h.distinct;
  five = h.five;
  table = h.table;
}

-- A change of the times and numbers only.
abbrev pub SameContents : VCookie → VCookie → Type 0
SameContents c d =
    (d.first_hit_referrer ≡ c.first_hit_referrer)
    × (d.first_hit_page_url ≡ c.first_hit_page_url)
    × (d.first_hit_pagename ≡ c.first_hit_pagename)
    × (d.merchandising ≡ c.merchandising)
    × (d.purchase_ids ≡ c.purchase_ids)
    × (d.table ≡ c.table)

pub SameContents-IsIntact : (c d : VCookie) → SameContents c d → IsIntact c → IsIntact d
SameContents-IsIntact c d (r, u, n, m, p, t) h = record {
  referrer = subst AreBytes (sym r) h.referrer;
  page_url = subst AreBytes (sym u) h.page_url;
  pagename = subst AreBytes (sym n) h.pagename;
  merchandising_text = subst AreBytes (sym m) h.merchandising_text;
  ids = rw p h.ids;
  distinct = rw p h.distinct;
  five = rw p h.five;
  table = rw t h.table;
}

count_purchase-IsIntact :
    (c : VCookie) (id : Bytes) → AreBytes id → IsIntact c → IsIntact (count_purchase c id)
count_purchase-IsIntact c id f h =
    set_purchase_id-IsIntact _ id f
      (SameContents-IsIntact c _ (refl, refl, refl, refl, refl, refl) h)

either-IsIntact :
    (b : Bool) (c d : VCookie) → IsIntact c → IsIntact d → IsIntact (if b then c else d)
either-IsIntact true c d h k = h
either-IsIntact false c d h k = k

before_evars-IsIntact :
    (c : VCookie) (hit : HitData) → IsHit hit → IsIntact c → IsIntact (before_evars c hit)
unfolding before_evars
before_evars-IsIntact c hit f h =
    let first = either-IsIntact c.new_cookie _ _ (set_first_hit-IsIntact c hit f h) h in
    let timed =
      either-IsIntact (hit.purchase_time_gmt == 0) _ _
        (SameContents-IsIntact _ _ (refl, refl, refl, refl, refl, refl) first)
        (SameContents-IsIntact _ _ (refl, refl, refl, refl, refl, refl) first) in
    either-IsIntact (is_empty hit.purchaseid) _ _ timed
      (count_purchase-IsIntact _ hit.purchaseid f.purchaseid timed)

set_evar-IsIntact :
    (c : VCookie) (i hit_time : ℕ) (value : Bytes)
    → i < invalid_rid
    → AreBytes value
    → IsIntact c
    → IsIntact (set_evar c i hit_time value)
unfolding set_evar clear_cookie_var
set_evar-IsIntact c i hit_time value narrow f h =
    either-IsIntact (is_empty value) _ _
      (with_table-IsIntact c _ (clear_var c.table i) c.modified c.rel_var_modified refl h
        (clear_var-IsIntactTable c.table i h.table))
      (by_found (get_var c.table i 0))
  where
    by_found : (o : Option RelVar) → IsIntact (set_found c i hit_time value o)
    by_found none = h
    by_found (some rv) = either-IsIntact (bytes_eq rv.value value) _ _ h (
        unfold set_cookie_var in
        with_table-IsIntact c _
          (set_var c.table i (record { value = value; timestamp = hit_time; revision = 1 })
            alloc_type_first max_linear_not_set).table
          _ _ refl h
          (set_var-IsIntactTable c.table i
            (record { value = value; timestamp = hit_time; revision = 1 }) alloc_type_first
            max_linear_not_set (omega arith) (omega arith) f h.table))

set_evars-IsIntact :
    (c : VCookie) (i hit_time : ℕ) (evars : List Bytes)
    → i + length evars < 2 ^ 16
    → All AreBytes evars
    → IsIntact c
    → IsIntact (set_evars c i hit_time evars)
unfolding set_evars
set_evars-IsIntact c i hit_time [] narrow f h = h
set_evars-IsIntact c i hit_time (value ∷ evars) narrow (f, fs) h =
    set_evars-IsIntact (set_evar c i hit_time value) (i + 1) hit_time evars (omega arith) fs
      (set_evar-IsIntact c i hit_time value (omega arith) f h)

pub update_cookie-IsIntact :
    (c : VCookie) (hit : HitData) → IsHit hit → IsIntact c → IsIntact (update_cookie c hit)
unfolding update_cookie
update_cookie-IsIntact c hit f h =
    set_evars-IsIntact (before_evars c hit) 0 hit.hit_time_gmt hit.evar
      (let k = f.evar_count in omega arith) f.evars (before_evars-IsIntact c hit f h)
