-- ===== src/Codec/Members.antt =====
-- Reading one member writes it, also where it was left out of the format.
use elevator.Base.{
  ℕ, ◌≤◌, ◌≡◌, refl, ap, ◌∙◌, sym, arith, Bool, true, false, List, [], ◌∷◌, ◌++◌, ◌==◌,
  if◌then◌else◌, length, Bytes, Bool-cases, inl, inr, ==_iff, length-append,
}
use mathlib.Core.List.{append_assoc, append-nil}
use elevator.Cookie.{
  VCookie, clear_flags, set_purchase_id, set_first_hit_time_gmt, set_last_hit_time_gmt,
  set_last_hit_time_visitor_local, set_last_visit_num, set_last_purchase_time_gmt,
  set_first_hit_referrer, set_first_hit_url, set_first_hit_pagename, set_last_purchase_num,
  set_merchandising,
}
use elevator.Cookie.Vars.{is_empty}
use elevator.Cookie.Purchases.Order.{Distinct, Distinct-earlier, set_purchase_ids-append}
use elevator.Codec.Absorb.{put_number, put_text, put_ids}

-- The members that Serialize may leave out are as Reset and the constructor leave them.
pub record IsBlank (c : VCookie) : Type 0 where
  pub no_first_hit_time_gmt : c.first_hit_time_gmt ≡ 0
  pub no_last_hit_time_visitor_local : c.last_hit_time_visitor_local ≡ 0
  pub no_last_visit_num : c.last_visit_num ≡ 0
  pub no_last_purchase_time_gmt : c.last_purchase_time_gmt ≡ 0
  pub no_first_hit_referrer : c.first_hit_referrer ≡ []
  pub no_first_hit_page_url : c.first_hit_page_url ≡ []
  pub no_first_hit_pagename : c.first_hit_pagename ≡ []
  pub no_last_purchase_num : c.last_purchase_num ≡ 0
  pub no_merchandising : c.merchandising ≡ []
  pub no_purchase_ids : c.purchase_ids ≡ []

zero_of : (v : ℕ) → (v == 0) ≡ true → 0 ≡ v
zero_of v e = sym ((==_iff v 0).0 e)

empty_of : (v : Bytes) → is_empty v ≡ true → [] ≡ v
empty_of [] e = refl
empty_of (x ∷ xs) e = cc

-- Reading a member writes it, also where it was left out because it is 0 or empty.
module _ (c : VCookie) where
  pub put-first_hit_time_gmt :
      (v : ℕ)
      → c.first_hit_time_gmt ≡ 0
      → clear_flags (put_number set_first_hit_time_gmt v c)
        ≡ record (clear_flags c) { first_hit_time_gmt = v }
  unfolding clear_flags put_number
  put-first_hit_time_gmt v h = elim (Bool-cases (v == 0)) [
    | inl e ↦ rw e (λ i. record (clear_flags c) { first_hit_time_gmt = (h ∙ zero_of v e) i })
    | inr n ↦ rw n
  ]

  pub put-last_hit :
      (save : Bool) (v : ℕ)
      → (save ≡ true → c.last_hit_time_gmt ≡ 0)
      → clear_flags (put_number set_last_hit_time_gmt (if save then v else 0) c)
        ≡ record (clear_flags c) { last_hit_time_gmt = if save then v else c.last_hit_time_gmt }
  unfolding clear_flags put_number
  put-last_hit false v h = refl
  put-last_hit true v h = elim (Bool-cases (v == 0)) [
    | inl e ↦ rw e (λ i. record (clear_flags c) { last_hit_time_gmt = (h refl ∙ zero_of v e) i })
    | inr n ↦ rw n
  ]

  pub put-last_hit_time_visitor_local :
      (v : ℕ)
      → c.last_hit_time_visitor_local ≡ 0
      → clear_flags (put_number set_last_hit_time_visitor_local v c)
        ≡ record (clear_flags c) { last_hit_time_visitor_local = v }
  unfolding clear_flags put_number
  put-last_hit_time_visitor_local v h = elim (Bool-cases (v == 0)) [
    | inl e ↦
        rw e (λ i. record (clear_flags c) { last_hit_time_visitor_local = (h ∙ zero_of v e) i })
    | inr n ↦ rw n
  ]

  pub put-last_visit_num :
      (v : ℕ)
      → c.last_visit_num ≡ 0
      → clear_flags (put_number set_last_visit_num v c)
        ≡ record (clear_flags c) { last_visit_num = v }
  unfolding clear_flags put_number
  put-last_visit_num v h = elim (Bool-cases (v == 0)) [
    | inl e ↦ rw e (λ i. record (clear_flags c) { last_visit_num = (h ∙ zero_of v e) i })
    | inr n ↦ rw n
  ]

  pub put-last_purchase_time_gmt :
      (v : ℕ)
      → c.last_purchase_time_gmt ≡ 0
      → clear_flags (put_number set_last_purchase_time_gmt v c)
        ≡ record (clear_flags c) { last_purchase_time_gmt = v }
  unfolding clear_flags put_number
  put-last_purchase_time_gmt v h = elim (Bool-cases (v == 0)) [
    | inl e ↦ rw e (λ i. record (clear_flags c) { last_purchase_time_gmt = (h ∙ zero_of v e) i })
    | inr n ↦ rw n
  ]

  pub put-first_hit_referrer :
      (v : Bytes)
      → c.first_hit_referrer ≡ []
      → clear_flags (put_text set_first_hit_referrer v c)
        ≡ record (clear_flags c) { first_hit_referrer = v }
  unfolding clear_flags put_text
  put-first_hit_referrer v h = elim (Bool-cases (is_empty v)) [
    | inl e ↦ rw e (λ i. record (clear_flags c) { first_hit_referrer = (h ∙ empty_of v e) i })
    | inr n ↦ rw n
  ]

  pub put-first_hit_page_url :
      (v : Bytes)
      → c.first_hit_page_url ≡ []
      → clear_flags (put_text set_first_hit_url v c)
        ≡ record (clear_flags c) { first_hit_page_url = v }
  unfolding clear_flags put_text
  put-first_hit_page_url v h = elim (Bool-cases (is_empty v)) [
    | inl e ↦ rw e (λ i. record (clear_flags c) { first_hit_page_url = (h ∙ empty_of v e) i })
    | inr n ↦ rw n
  ]

  pub put-first_hit_pagename :
      (v : Bytes)
      → c.first_hit_pagename ≡ []
      → clear_flags (put_text set_first_hit_pagename v c)
        ≡ record (clear_flags c) { first_hit_pagename = v }
  unfolding clear_flags put_text
  put-first_hit_pagename v h = elim (Bool-cases (is_empty v)) [
    | inl e ↦ rw e (λ i. record (clear_flags c) { first_hit_pagename = (h ∙ empty_of v e) i })
    | inr n ↦ rw n
  ]

  pub put-last_purchase_num :
      (v : ℕ)
      → c.last_purchase_num ≡ 0
      → clear_flags (put_number set_last_purchase_num v c)
        ≡ record (clear_flags c) { last_purchase_num = v }
  unfolding clear_flags put_number
  put-last_purchase_num v h = elim (Bool-cases (v == 0)) [
    | inl e ↦ rw e (λ i. record (clear_flags c) { last_purchase_num = (h ∙ zero_of v e) i })
    | inr n ↦ rw n
  ]

  pub put-merchandising :
      (v : Bytes)
      → c.merchandising ≡ []
      → clear_flags (put_text set_merchandising v c) ≡ record (clear_flags c) { merchandising = v }
  unfolding clear_flags put_text
  put-merchandising v h = elim (Bool-cases (is_empty v)) [
    | inl e ↦ rw e (λ i. record (clear_flags c) { merchandising = (h ∙ empty_of v e) i })
    | inr n ↦ rw n
  ]

-- Distinct ids, five at most, are put back in their order.
pub put_ids_lem :
    (ids pre : List Bytes) (c : VCookie)
    → c.purchase_ids ≡ pre
    → Distinct (pre ++ ids)
    → length (pre ++ ids) ≤ 5
    → clear_flags (put_ids ids c) ≡ record (clear_flags c) { purchase_ids = pre ++ ids }
unfolding put_ids clear_flags set_purchase_id
put_ids_lem [] pre c e d h =
    λ i. record (clear_flags c) { purchase_ids = (e ∙ sym (append-nil pre)) i }
put_ids_lem (p ∷ ps) pre c e d h =
    let added =
      set_purchase_ids-append pre p (Distinct-earlier pre ps p d)
        (omega (arith, length-append pre (p ∷ ps))) in
    let ids : (set_purchase_id c p).0.purchase_ids ≡ pre ++ (p ∷ []) = rw (e, added) refl in
    let assoc : (pre ++ (p ∷ [])) ++ ps ≡ pre ++ (p ∷ ps) = append_assoc pre (p ∷ []) ps in
    put_ids_lem ps (pre ++ (p ∷ [])) (set_purchase_id c p).0 ids (rw assoc d) (rw assoc h)
    ∙ ap (λ (l : List Bytes). record (clear_flags c) { purchase_ids = l }) assoc
