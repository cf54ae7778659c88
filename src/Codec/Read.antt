-- ===== src/Codec/Read.antt =====
-- ReadItem and VCookieStore::Deserialize (abstraction/vcookiestore.cpp). The reader holds what is
-- left of the buffer from `b` to `e`, and the cookie that is filled in.
use elevator.Base.{
  ℕ, zero, suc, ◌-◌, Bool, true, false, Option, none, some, ◌==◌, ltb, if◌then◌else◌, length, drop,
  Run, done, Bytes, read_word, read_text,
}
use elevator.Cookie.{
  VCookie, set_first_hit_time_gmt, set_last_hit_time_gmt, set_last_hit_time_visitor_local,
  set_last_visit_num, set_last_purchase_time_gmt, set_first_hit_referrer, set_first_hit_url,
  set_first_hit_pagename, set_last_purchase_num, set_merchandising, set_purchase_id, set_cookie_var,
  add_cookie_element,
}
use elevator.Cookie.Vars.{RelVar, alloc_type_last, alloc_type_linear, var_not_set, invalid_rid}

pub record Reader : Type 0 where
  pub rest : Bytes
  pub cookie : VCookie

-- `stop c` is `return false`, with the cookie as it is then.
pub data Outcome (A : Type 0) : Type 0 where
  next : A → Reader → Outcome A
  stop : VCookie → Outcome A
  out_of_fuel : Outcome A

abbrev pub Parse : Type 0 → Type 0
Parse A = Reader → Outcome A

abbrev pub continue : {A B : Type 0} → Outcome A → (A → Parse B) → Outcome B
continue (next a r) f = f a r
continue (stop c) f = stop c
continue out_of_fuel f = out_of_fuel

infixl 5 ◌>>=◌ ◌>>◌
abbrev pub ◌>>=◌ : {A B : Type 0} → Parse A → (A → Parse B) → Parse B
◌>>=◌ m f r = continue (m r) f

abbrev pub ◌>>◌ : {B : Type 0} → Parse (Unit {0}) → Parse B → Parse B
m >> k = m >>= λ _. k

abbrev pub pure : {A : Type 0} → A → Parse A
pure a r = next a r

abbrev pub return_false : {A : Type 0} → Parse A
return_false r = stop r.cookie

abbrev pub modify : (VCookie → VCookie) → Parse (Unit {0})
modify f r = next tt (record r { cookie = f r.cookie })

-- if (!ReadItem (&b, e, val)) return false;
abbrev pub or_stop : {A : Type 0} → Option (A × Bytes) → Parse A
or_stop none r = stop r.cookie
or_stop (some (v, rest)) r = next v (record r { rest = rest })

unfoldable pub read_item : ℕ → Parse ℕ
read_item size r = or_stop (read_word size r.rest) r

unfoldable pub read_text_item : Parse Bytes
read_text_item r = or_stop (read_text r.rest) r

-- ReadItem with its answer ignored. The variable that is then not written reads as 0 here; there is
-- no byte left then, and Deserialize returns false whatever the variable holds.
abbrev pub or_zero : Option (ℕ × Bytes) → Parse ℕ
or_zero none r = next 0 r
or_zero (some (v, rest)) r = next v (record r { rest = rest })

unfoldable pub read_unchecked : Parse ℕ
read_unchecked r = or_zero (read_word 1 r.rest) r

-- if (next == ++field) { read a number; set it; read `next` }
unfoldable pub number_field : ℕ → ℕ → (VCookie → ℕ → VCookie) → ℕ → Parse ℕ
number_field field size set next_field =
    if next_field == field
    then (do v ← read_item size; modify (λ c. set c v); read_item 1)
    else pure next_field

unfoldable pub text_field : ℕ → (VCookie → Bytes → VCookie) → ℕ → Parse ℕ
text_field field set next_field =
    if next_field == field
    then (do s ← read_text_item; modify (λ c. set c s); read_item 1)
    else pure next_field

-- The loop over the purchase ids; `left` remain.
unfoldable pub read_purchase_ids : ℕ → Parse (Unit {0})
read_purchase_ids zero = pure tt
read_purchase_ids (suc left) = do
  p ← read_text_item
  modify (λ c. (set_purchase_id c p).0)
  read_purchase_ids left

unfoldable pub purchase_field : ℕ → Parse ℕ
purchase_field next_field =
    if next_field == 11
    then (do cnt ← read_item 1; read_purchase_ids cnt; read_item 1)
    else pure next_field

unfoldable pub read_fields : Parse ℕ
read_fields = do
  n0 ← read_item 1
  n1 ← number_field 1 8 set_first_hit_time_gmt n0
  n2 ← number_field 2 8 set_last_hit_time_gmt n1
  n3 ← number_field 3 8 set_last_hit_time_visitor_local n2
  n4 ← number_field 4 4 set_last_visit_num n3
  n5 ← number_field 5 8 set_last_purchase_time_gmt n4
  n6 ← text_field 6 set_first_hit_referrer n5
  n7 ← text_field 7 set_first_hit_url n6
  n8 ← text_field 8 set_first_hit_pagename n7
  n9 ← number_field 9 4 set_last_purchase_num n8
  n10 ← text_field 10 set_merchandising n9
  purchase_field n10

-- SetVar for the first element, which gives the id, and AddLinearElement for the others.
unfoldable pub store_element_at : ℕ → ℕ → ℕ → RelVar → Parse ℕ
store_element_at rid cnt vid e r =
    let alloc = if ltb 1 cnt then alloc_type_linear else alloc_type_last in
    let (c, v) = set_cookie_var r.cookie rid e alloc cnt in
    if vid == var_not_set
    then next v (record r { cookie = c })
    else next vid (record r { cookie = add_cookie_element r.cookie vid e })

-- The loop over the elements of one variable; `left` remain.
unfoldable pub read_elements : ℕ → ℕ → ℕ → ℕ → Parse (Unit {0})
read_elements rid cnt zero vid = pure tt
read_elements rid cnt (suc left) vid = do
  value ← read_text_item
  timestamp ← read_item 8
  revision ← read_item 1
  v ←
      store_element_at rid cnt vid
        (record { value = value; timestamp = timestamp; revision = revision })
  read_elements rid cnt left v

abbrev pub no_fuel : Parse (Unit {0})
no_fuel r = out_of_fuel

-- The loop over the relation ids.
unfoldable pub read_vars : ℕ → ℕ → Parse (Unit {0})
read_vars zero rid = no_fuel
read_vars (suc fuel) rid = if rid == invalid_rid then pure tt else (do
  cnt ← read_item 4
  read_elements rid cnt cnt var_not_set
  rid' ← read_item 2
  read_vars fuel rid')

-- b - &buffer[0] > offset, and then b = &buffer[offset]. An offset past the end, where the pointer is undefined,
-- leaves nothing to read here; Codec/Valid.PointsInside excludes it.
unfoldable pub jump : Bytes → ℕ → Parse (Unit {0})
jump buffer offset r =
    if ltb offset (length buffer - length r.rest)
    then stop r.cookie
    else next tt (record r { rest = drop offset buffer })

abbrev pub finish : Outcome (Unit {0}) → Run (Bool × VCookie)
finish (next _ r) = done (true, r.cookie)
finish (stop c) = done (false, c)
finish out_of_fuel = Run.out_of_fuel

-- What follows the check of the version. Each round of the last loop reads two bytes at least.
unfoldable pub read_body : Bytes → Parse (Unit {0})
read_body buffer = do
  offset ← read_item 4
  last ← read_fields
  jump buffer offset
  rid ← read_item 2
  read_vars (suc (length buffer)) rid

unfoldable pub read_all : Bytes → Parse (Unit {0})
unfolding read_unchecked
read_all buffer = do
  version ← read_unchecked
  compatible ← read_unchecked
  flag ← read_unchecked
  if ltb 0 compatible then return_false else read_body buffer

unfoldable pub deserialize : VCookie → Bytes → Run (Bool × VCookie)
unfolding read_all
deserialize c buffer = finish (read_all buffer (record { rest = buffer; cookie = c }))
