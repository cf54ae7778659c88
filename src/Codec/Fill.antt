-- ===== src/Codec/Fill.antt =====
-- The cookie that Deserialize leaves, apart from its flags: the contents read, in a cookie that was
-- empty.
use elevator.Base.{◌≤◌, ◌≡◌, ap, ◌∙◌, Bool, true, [], if◌then◌else◌, length}
use elevator.Cookie.{
  VCookie, clear_flags, set_first_hit_time_gmt, set_last_hit_time_gmt,
  set_last_hit_time_visitor_local, set_last_visit_num, set_last_purchase_time_gmt,
  set_first_hit_referrer, set_first_hit_url, set_first_hit_pagename, set_last_purchase_num,
  set_merchandising,
}
use elevator.Cookie.Purchases.Order.{Distinct}
use elevator.Codec.Absorb.{put_number, put_text, fill}
use elevator.Codec.Members.{
  IsBlank, put-first_hit_time_gmt, put-last_hit, put-last_hit_time_visitor_local,
  put-last_visit_num, put-last_purchase_time_gmt, put-first_hit_referrer, put-first_hit_page_url,
  put-first_hit_pagename, put-last_purchase_num, put-merchandising, put_ids_lem,
}

module _ (c : VCookie) (save : Bool) (c0 : VCookie) (b : IsBlank c0) where
  x1 : VCookie
  x1 = put_number set_first_hit_time_gmt c.first_hit_time_gmt c0

  x2 : VCookie
  x2 = put_number set_last_hit_time_gmt (if save then c.last_hit_time_gmt else 0) x1

  x3 : VCookie
  x3 = put_number set_last_hit_time_visitor_local c.last_hit_time_gmt x2

  x4 : VCookie
  x4 = put_number set_last_visit_num c.last_visit_num x3

  x5 : VCookie
  x5 = put_number set_last_purchase_time_gmt c.last_hit_time_gmt x4

  x6 : VCookie
  x6 = put_text set_first_hit_referrer c.first_hit_referrer x5

  x7 : VCookie
  x7 = put_text set_first_hit_url c.first_hit_page_url x6

  x8 : VCookie
  x8 = put_text set_first_hit_pagename c.first_hit_pagename x7

  x9 : VCookie
  x9 = put_number set_last_purchase_num c.last_purchase_num x8

  x10 : VCookie
  x10 = put_text set_merchandising c.merchandising x9

  e1 :
      (save ≡ true → c0.last_hit_time_gmt ≡ 0)
      → clear_flags x1 ≡ record (clear_flags c0) { first_hit_time_gmt = c.first_hit_time_gmt }
  unfolding x1 clear_flags
  e1 h = put-first_hit_time_gmt c0 c.first_hit_time_gmt b.no_first_hit_time_gmt

  e2 :
      (save ≡ true → c0.last_hit_time_gmt ≡ 0)
      → clear_flags x2 ≡ record (clear_flags c0) {
        first_hit_time_gmt = c.first_hit_time_gmt;
        last_hit_time_gmt = if save then c.last_hit_time_gmt else c0.last_hit_time_gmt;
      }
  unfolding x2 clear_flags
  e2 h =
      put-last_hit x1 save c.last_hit_time_gmt
        (λ s. ap (λ (r : VCookie). r.last_hit_time_gmt) (e1 h) ∙ h s)
      ∙ (λ i. record (e1 h i) {
        last_hit_time_gmt = if save then c.last_hit_time_gmt else (e1 h i).last_hit_time_gmt;
      })

  e3 :
      (save ≡ true → c0.last_hit_time_gmt ≡ 0)
      → clear_flags x3 ≡ record (clear_flags c0) {
        first_hit_time_gmt = c.first_hit_time_gmt;
        last_hit_time_gmt = if save then c.last_hit_time_gmt else c0.last_hit_time_gmt;
        last_hit_time_visitor_local = c.last_hit_time_gmt;
      }
  unfolding x3 clear_flags
  e3 h =
      put-last_hit_time_visitor_local x2 c.last_hit_time_gmt (
        ap (λ (r : VCookie). r.last_hit_time_visitor_local) (e2 h)
        ∙ b.no_last_hit_time_visitor_local)
      ∙ ap (λ (r : VCookie). record r { last_hit_time_visitor_local = c.last_hit_time_gmt }) (e2 h)

  e4 :
      (save ≡ true → c0.last_hit_time_gmt ≡ 0)
      → clear_flags x4 ≡ record (clear_flags c0) {
        first_hit_time_gmt = c.first_hit_time_gmt;
        last_hit_time_gmt = if save then c.last_hit_time_gmt else c0.last_hit_time_gmt;
        last_hit_time_visitor_local = c.last_hit_time_gmt;
        last_visit_num = c.last_visit_num;
      }
  unfolding x4 clear_flags
  e4 h =
      put-last_visit_num x3 c.last_visit_num
        (ap (λ (r : VCookie). r.last_visit_num) (e3 h) ∙ b.no_last_visit_num)
      ∙ ap (λ (r : VCookie). record r { last_visit_num = c.last_visit_num }) (e3 h)

  e5 :
      (save ≡ true → c0.last_hit_time_gmt ≡ 0)
      → clear_flags x5 ≡ record (clear_flags c0) {
        first_hit_time_gmt = c.first_hit_time_gmt;
        last_hit_time_gmt = if save then c.last_hit_time_gmt else c0.last_hit_time_gmt;
        last_hit_time_visitor_local = c.last_hit_time_gmt;
        last_visit_num = c.last_visit_num;
        last_purchase_time_gmt = c.last_hit_time_gmt;
      }
  unfolding x5 clear_flags
  e5 h =
      put-last_purchase_time_gmt x4 c.last_hit_time_gmt
        (ap (λ (r : VCookie). r.last_purchase_time_gmt) (e4 h) ∙ b.no_last_purchase_time_gmt)
      ∙ ap (λ (r : VCookie). record r { last_purchase_time_gmt = c.last_hit_time_gmt }) (e4 h)

  e6 :
      (save ≡ true → c0.last_hit_time_gmt ≡ 0)
      → clear_flags x6 ≡ record (clear_flags c0) {
        first_hit_time_gmt = c.first_hit_time_gmt;
        last_hit_time_gmt = if save then c.last_hit_time_gmt else c0.last_hit_time_gmt;
        last_hit_time_visitor_local = c.last_hit_time_gmt;
        last_visit_num = c.last_visit_num;
        last_purchase_time_gmt = c.last_hit_time_gmt;
        first_hit_referrer = c.first_hit_referrer;
      }
  unfolding x6 clear_flags
  e6 h =
      put-first_hit_referrer x5 c.first_hit_referrer
        (ap (λ (r : VCookie). r.first_hit_referrer) (e5 h) ∙ b.no_first_hit_referrer)
      ∙ ap (λ (r : VCookie). record r { first_hit_referrer = c.first_hit_referrer }) (e5 h)

  e7 :
      (save ≡ true → c0.last_hit_time_gmt ≡ 0)
      → clear_flags x7 ≡ record (clear_flags c0) {
        first_hit_time_gmt = c.first_hit_time_gmt;
        last_hit_time_gmt = if save then c.last_hit_time_gmt else c0.last_hit_time_gmt;
        last_hit_time_visitor_local = c.last_hit_time_gmt;
        last_visit_num = c.last_visit_num;
        last_purchase_time_gmt = c.last_hit_time_gmt;
        first_hit_referrer = c.first_hit_referrer;
        first_hit_page_url = c.first_hit_page_url;
      }
  unfolding x7 clear_flags
  e7 h =
      put-first_hit_page_url x6 c.first_hit_page_url
        (ap (λ (r : VCookie). r.first_hit_page_url) (e6 h) ∙ b.no_first_hit_page_url)
      ∙ ap (λ (r : VCookie). record r { first_hit_page_url = c.first_hit_page_url }) (e6 h)

  e8 :
      (save ≡ true → c0.last_hit_time_gmt ≡ 0)
      → clear_flags x8 ≡ record (clear_flags c0) {
        first_hit_time_gmt = c.first_hit_time_gmt;
        last_hit_time_gmt = if save then c.last_hit_time_gmt else c0.last_hit_time_gmt;
        last_hit_time_visitor_local = c.last_hit_time_gmt;
        last_visit_num = c.last_visit_num;
        last_purchase_time_gmt = c.last_hit_time_gmt;
        first_hit_referrer = c.first_hit_referrer;
        first_hit_page_url = c.first_hit_page_url;
        first_hit_pagename = c.first_hit_pagename;
      }
  unfolding x8 clear_flags
  e8 h =
      put-first_hit_pagename x7 c.first_hit_pagename
        (ap (λ (r : VCookie). r.first_hit_pagename) (e7 h) ∙ b.no_first_hit_pagename)
      ∙ ap (λ (r : VCookie). record r { first_hit_pagename = c.first_hit_pagename }) (e7 h)

  e9 :
      (save ≡ true → c0.last_hit_time_gmt ≡ 0)
      → clear_flags x9 ≡ record (clear_flags c0) {
        first_hit_time_gmt = c.first_hit_time_gmt;
        last_hit_time_gmt = if save then c.last_hit_time_gmt else c0.last_hit_time_gmt;
        last_hit_time_visitor_local = c.last_hit_time_gmt;
        last_visit_num = c.last_visit_num;
        last_purchase_time_gmt = c.last_hit_time_gmt;
        first_hit_referrer = c.first_hit_referrer;
        first_hit_page_url = c.first_hit_page_url;
        first_hit_pagename = c.first_hit_pagename;
        last_purchase_num = c.last_purchase_num;
      }
  unfolding x9 clear_flags
  e9 h =
      put-last_purchase_num x8 c.last_purchase_num
        (ap (λ (r : VCookie). r.last_purchase_num) (e8 h) ∙ b.no_last_purchase_num)
      ∙ ap (λ (r : VCookie). record r { last_purchase_num = c.last_purchase_num }) (e8 h)

  e10 :
      (save ≡ true → c0.last_hit_time_gmt ≡ 0)
      → clear_flags x10 ≡ record (clear_flags c0) {
        first_hit_time_gmt = c.first_hit_time_gmt;
        last_hit_time_gmt = if save then c.last_hit_time_gmt else c0.last_hit_time_gmt;
        last_hit_time_visitor_local = c.last_hit_time_gmt;
        last_visit_num = c.last_visit_num;
        last_purchase_time_gmt = c.last_hit_time_gmt;
        first_hit_referrer = c.first_hit_referrer;
        first_hit_page_url = c.first_hit_page_url;
        first_hit_pagename = c.first_hit_pagename;
        last_purchase_num = c.last_purchase_num;
        merchandising = c.merchandising;
      }
  unfolding x10 clear_flags
  e10 h =
      put-merchandising x9 c.merchandising
        (ap (λ (r : VCookie). r.merchandising) (e9 h) ∙ b.no_merchandising)
      ∙ ap (λ (r : VCookie). record r { merchandising = c.merchandising }) (e9 h)

  -- The contents of `c` are in the cookie, but for the two times that Serialize reads from the time
  -- of the last hit.
  pub fill_lem :
      (save ≡ true → c0.last_hit_time_gmt ≡ 0)
      → Distinct c.purchase_ids
      → length c.purchase_ids ≤ 5
      → clear_flags (fill c save c0) ≡ record (clear_flags c0) {
        first_hit_time_gmt = c.first_hit_time_gmt;
        last_hit_time_gmt = if save then c.last_hit_time_gmt else c0.last_hit_time_gmt;
        last_hit_time_visitor_local = c.last_hit_time_gmt;
        last_visit_num = c.last_visit_num;
        last_purchase_time_gmt = c.last_hit_time_gmt;
        first_hit_referrer = c.first_hit_referrer;
        first_hit_page_url = c.first_hit_page_url;
        first_hit_pagename = c.first_hit_pagename;
        last_purchase_num = c.last_purchase_num;
        merchandising = c.merchandising;
        purchase_ids = c.purchase_ids;
      }
  unfolding fill x1 x2 x3 x4 x5 x6 x7 x8 x9 x10 clear_flags
  fill_lem h d k =
      put_ids_lem c.purchase_ids [] x10
        (ap (λ (r : VCookie). r.purchase_ids) (e10 h) ∙ b.no_purchase_ids) d k
      ∙ ap (λ (r : VCookie). record r { purchase_ids = c.purchase_ids }) (e10 h)
