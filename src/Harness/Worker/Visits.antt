-- ===== src/Harness/Worker/Visits.antt =====
-- What the store knows of a visitor after a hit.
use elevator.Base.{
  ℕ, ◌+◌, ◌%◌, ◌^◌, ◌≡◌, refl, subst, ap, ◌∙◌, sym, false, Option, none, some, if◌then◌else◌,
  bytes_eq, List, [], ◌∷◌, Bytes, done, inl, inr, Bool-cases, arith,
}
use elevator.Cookie.{
  VCookie, construct, clear_flags, clear_cookie_var, set_purchase_id, set_cookie_var,
}
use elevator.Cookie.Vars.{
  RelVar, no_vars, clear_var, find_relation_id, find_relation_pos, find_loop, is_empty,
}
use elevator.Cookie.Vars.Read.{get_var}
use elevator.Codec.RoundTrip.{CanSave}
use elevator.Memory.{StoreMap, vid, load_vcookie}
use elevator.Memory.Keys.{Orders}
use elevator.Memory.Restore.{construct-save_vcookie}
use elevator.Store.Stores.{in_memory}
use elevator.Harness.Hits.{HitData}
use elevator.Cookie.Purchases.{set_purchase_ids}
use elevator.Harness.Worker.{
  before_evars, set_found, set_evar, set_evars, update_cookie, process_hit,
}

-- Where no variable is set, an evar changes nothing: GetVar finds none, and SetVar is not called.
set_evar_none :
    (c : VCookie) (i hit_time : ℕ) (value : Bytes)
    → c.table ≡ no_vars
    → set_evar c i hit_time value ≡ c
unfolding set_evar clear_cookie_var clear_var get_var find_relation_id find_relation_pos find_loop
set_evar_none c i hit_time value h = elim (Bool-cases (is_empty value)) [
  | inl empty ↦ rw (empty, h) refl
  | inr full ↦ rw (full, h) refl
]

set_evars_none :
    (c : VCookie) (i hit_time : ℕ) (evars : List Bytes)
    → c.table ≡ no_vars
    → set_evars c i hit_time evars ≡ c
unfolding set_evars
set_evars_none c i hit_time [] h = refl
set_evars_none c i hit_time (value ∷ evars) h =
    rw (set_evar_none c i hit_time value h) (set_evars_none c (i + 1) hit_time evars h)

-- `d` with the variables of `c`, and the flags that go with them.
abbrev pub with_vars_of : VCookie → VCookie → VCookie
with_vars_of c d = record d {
  table = c.table;
  modified = c.modified;
  rel_var_modified = c.rel_var_modified;
}

-- The evars change nothing but the variables and their flags.
set_evar_vars :
    (c : VCookie) (i hit_time : ℕ) (value : Bytes)
    → with_vars_of c (set_evar c i hit_time value) ≡ c
unfolding set_evar clear_cookie_var
set_evar_vars c i hit_time value = elim (Bool-cases (is_empty value)) [
  | inl empty ↦ rw empty refl
  | inr full ↦ rw full (by_found (get_var c.table i 0))
]
  where
    by_found : (o : Option RelVar) → with_vars_of c (set_found c i hit_time value o) ≡ c
    by_found none = refl
    by_found (some rv) = elim (Bool-cases (bytes_eq rv.value value)) [
      | inl same ↦ rw same refl
      | inr other ↦ rw other (unfold set_cookie_var in refl)
    ]

pub set_evars_vars :
    (c : VCookie) (i hit_time : ℕ) (evars : List Bytes)
    → with_vars_of c (set_evars c i hit_time evars) ≡ c
unfolding set_evars
set_evars_vars c i hit_time [] = refl
set_evars_vars c i hit_time (value ∷ evars) =
    let c1 = set_evar c i hit_time value in
    ap (with_vars_of c) (set_evars_vars c1 (i + 1) hit_time evars)
    ∙ set_evar_vars c i hit_time value

-- What a cookie remembers of a visitor once a hit is counted, given what it was before.
pub record Remembers (hit : HitData) (c c' : VCookie) : Type 0 where
  pub first_hit_time :
      c'.first_hit_time_gmt ≡ (if c.new_cookie then hit.hit_time_gmt else c.first_hit_time_gmt)
  pub first_referrer :
      c'.first_hit_referrer ≡ (if c.new_cookie then hit.referrer else c.first_hit_referrer)
  pub first_url :
      c'.first_hit_page_url ≡ (if c.new_cookie then hit.page_url else c.first_hit_page_url)
  pub first_pagename :
      c'.first_hit_pagename ≡ (if c.new_cookie then hit.page_name else c.first_hit_pagename)
  pub last_hit_time : c'.last_hit_time_gmt ≡ hit.hit_time_gmt
  pub last_visit : c'.last_visit_num ≡ hit.visit_num % 2 ^ 32
  pub purchases : c'.purchase_ids ≡ (
      if is_empty hit.purchaseid
      then c.purchase_ids
      else (set_purchase_ids c.purchase_ids hit.purchaseid).0)

before_evars-Remembers : (c : VCookie) (hit : HitData) → Remembers hit c (before_evars c hit)
unfolding before_evars set_purchase_id
before_evars-Remembers c hit = ground arith

update_cookie-Remembers : (c : VCookie) (hit : HitData) → Remembers hit c (update_cookie c hit)
unfolding update_cookie
update_cookie-Remembers c hit =
    let b = before_evars c hit in
    let e = set_evars_vars b 0 hit.hit_time_gmt hit.evar in
    let r = subst (λ (d : VCookie). Remembers hit c d) (sym e) (before_evars-Remembers c hit) in
    record {
      first_hit_time = r.first_hit_time;
      first_referrer = r.first_referrer;
      first_url = r.first_url;
      first_pagename = r.first_pagename;
      last_hit_time = r.last_hit_time;
      last_visit = r.last_visit;
      purchases = r.purchases;
    }

before_evars-table : (c : VCookie) (hit : HitData) → (before_evars c hit).table ≡ c.table
unfolding before_evars set_purchase_id
before_evars-table c hit = ground arith

-- A hit sets no variable in a cookie that has none, whatever its evars: an evar is set only where
-- GetVar finds another value.
pub update_cookie-no_vars :
    (c : VCookie) (hit : HitData) → c.table ≡ no_vars → (update_cookie c hit).table ≡ no_vars
unfolding update_cookie
update_cookie-no_vars c hit h =
    let t = before_evars-table c hit ∙ h in
    rw (set_evars_none (before_evars c hit) 0 hit.hit_time_gmt hit.evar t) t

-- A worker's hit on the store in memory, where the constructor gives the cookie `c`, the changed cookie can be saved, and
-- operator < orders its visitor's id and the ids in the store: operator < still does, the constructor then finds a cookie that remembers the hit, and keeps what was
-- set at the first one.
pub process_hit-Remembers :
    (s : StoreMap) (hit : HitData) (c : VCookie)
    → construct (load_vcookie s) hit.rsid hit.visid_high hit.visid_low hit.visid_new ≡ done c
    → CanSave (update_cookie c hit) false
    → Orders (vid (update_cookie c hit)) s
    → let u = update_cookie c hit in
      (s' : StoreMap) × (c' : VCookie) × (process_hit in_memory s hit ≡ done s')
      × Orders (vid u) s'
      × (construct (load_vcookie s') u.userid u.visid_high u.visid_low false ≡ done c')
      × (c'.new_cookie ≡ false)
      × Remembers hit c c'
unfolding process_hit clear_flags
process_hit-Remembers s hit c loaded can ordered =
    let step = construct-save_vcookie s (update_cookie c hit) can ordered in
    let r = update_cookie-Remembers c hit in
    let members = step.5 in
    let c' = step.1 in
    (
      step.0,
      c',
      rw loaded (rw step.2 refl),
      step.3,
      step.4,
      ap (λ (d : VCookie). d.new_cookie) members,
      record {
        first_hit_time = ap (λ (d : VCookie). d.first_hit_time_gmt) members ∙ r.first_hit_time;
        first_referrer = ap (λ (d : VCookie). d.first_hit_referrer) members ∙ r.first_referrer;
        first_url = ap (λ (d : VCookie). d.first_hit_page_url) members ∙ r.first_url;
        first_pagename = ap (λ (d : VCookie). d.first_hit_pagename) members ∙ r.first_pagename;
        last_hit_time = ap (λ (d : VCookie). d.last_hit_time_gmt) members ∙ r.last_hit_time;
        last_visit = ap (λ (d : VCookie). d.last_visit_num) members ∙ r.last_visit;
        purchases = ap (λ (d : VCookie). d.purchase_ids) members ∙ r.purchases;
      },
    )
