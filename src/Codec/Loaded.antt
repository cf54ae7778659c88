-- ===== src/Codec/Loaded.antt =====
-- Deserialize (abstraction/vcookiestore.cpp) does not change whose cookie it is, whatever the buffer holds.
use elevator.Base.{◌≡◌, refl, Bool, Bytes, done}
use elevator.Cookie.{VCookie, set_purchase_id, set_cookie_var, add_cookie_element}
use elevator.Codec.Read.{deserialize}
use elevator.Codec.Invariant.{IsKept, IsStored}
use elevator.Codec.Total.{deserialize-Keeps}

-- The cookie of the same visitor.
abbrev pub SameVisitor : VCookie → VCookie → Type 0
SameVisitor c0 c =
    (c.userid ≡ c0.userid) × (c.visid_high ≡ c0.visid_high) × (c.visid_low ≡ c0.visid_low)

module _ (c0 : VCookie) where
  SameVisitor-IsKept :
      IsKept (SameVisitor c0) (λ rest. Unit {0}) (λ size v. Unit {0}) (λ s. Unit {0})
  unfolding set_purchase_id
  SameVisitor-IsKept = record {
    word = λ size rest rest' v k e. (tt, tt);
    text = λ rest rest' s k e. (tt, tt);
    behind = λ n rest k. tt;
    first_hit_time_gmt = λ c v w h. h;
    last_hit_time_gmt = λ c v w h. h;
    last_hit_time_visitor_local = λ c v w h. h;
    last_visit_num = λ c v w h. h;
    last_purchase_time_gmt = λ c v w h. h;
    first_hit_referrer = λ c s w h. h;
    first_hit_page_url = λ c s w h. h;
    first_hit_pagename = λ c s w h. h;
    last_purchase_num = λ c v w h. h;
    merchandising = λ c s w h. h;
    purchase_id = λ c s w h. h;
  }

  SameVisitor-IsStored :
      IsStored
        (SameVisitor c0)
        (λ rest. Unit {0})
        (λ size v. Unit {0})
        (λ s. Unit {0})
        (λ rid cnt left v c. Unit {0})
  unfolding set_cookie_var add_cookie_element
  SameVisitor-IsStored = record {
    start = λ rid cnt c w ne w1 h. tt;
    first = λ rid cnt left c e t u w h b. (h, tt);
    later = λ rid cnt left v c e t u w h ne b. (h, tt);
  }

-- Deserialize returns for any buffer and any cookie, and leaves it the cookie of the same visitor.
pub deserialize-SameVisitor :
    (c : VCookie) (buffer : Bytes)
    → (answer : Bool) × (c' : VCookie) × (deserialize c buffer ≡ done (answer, c'))
      × SameVisitor c c'
deserialize-SameVisitor c buffer =
    deserialize-Keeps (SameVisitor c) (λ rest. Unit {0}) (λ size v. Unit {0}) (λ s. Unit {0})
      (SameVisitor-IsKept c) (λ rid cnt left v d. Unit {0}) (SameVisitor-IsStored c) buffer tt c
      (refl, refl, refl)
