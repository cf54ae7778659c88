-- ===== src/Cookie.antt =====
-- class VCookie (abstraction/vcookie.h): a visitor's record. A `std::string` is the list of its
-- bytes. A `time_t` is its 64-bit pattern, an `unsigned` a number below 2 ^ 32. The record of the
-- relation variables is in Vars, the list of purchase ids in Purchases.
pub mod Vars
pub mod Purchases
pub mod Equal
use elevator.Base.{
  ℕ, ◌%◌, ◌^◌, Bool, true, false, List, [], ◌||◌, length, if◌then◌else◌, Run, done, not, Bytes,
  Option, none, some,
}
use Vars.{RelVar, AllocationType, VarTable, no_vars, clear_var, set_var, add_linear_element}
use Vars.Read.{get_first_set_var}
use Purchases.{set_purchase_ids}

pub record VCookie : Type 0 where
  pub new_cookie : Bool
  pub modified : Bool
  pub userid : ℕ
  pub visid_high : ℕ
  pub visid_low : ℕ
  -- Traffic Info
  pub last_hit_time_gmt : ℕ
  pub last_hit_time_visitor_local : ℕ
  pub first_hit_time_gmt : ℕ
  pub last_visit_num : ℕ
  pub traffic_modified : Bool
  -- Ecommerce Info
  pub first_hit_referrer : Bytes
  pub first_hit_page_url : Bytes
  pub first_hit_pagename : Bytes
  pub last_purchase_time_gmt : ℕ
  pub last_purchase_num : ℕ
  pub purchase_ids : List Bytes
  pub ecommerce_modified : Bool
  pub merchandising : Bytes
  pub merchandising_modified : Bool
  pub rel_var_modified : Bool
  -- relVar and relVarSort
  pub table : VarTable

-- modified = trafficModified = … = false
unfoldable pub clear_flags : VCookie → VCookie
clear_flags c = record c {
  modified = false;
  traffic_modified = false;
  ecommerce_modified = false;
  merchandising_modified = false;
  rel_var_modified = false;
}

-- The members as the constructor's initialisers leave them. The flags that it sets only later are
-- false here, as they are once it is done.
abbrev pub initial : ℕ → ℕ → ℕ → Bool → VCookie
initial user vid_high vid_low new_visitor = record {
  new_cookie = new_visitor;
  modified = false;
  userid = user;
  visid_high = vid_high;
  visid_low = vid_low;
  last_hit_time_gmt = 0;
  last_hit_time_visitor_local = 0;
  first_hit_time_gmt = 0;
  last_visit_num = 0;
  traffic_modified = false;
  first_hit_referrer = [];
  first_hit_page_url = [];
  first_hit_pagename = [];
  last_purchase_time_gmt = 0;
  last_purchase_num = 0;
  purchase_ids = [];
  ecommerce_modified = false;
  merchandising = [];
  merchandising_modified = false;
  rel_var_modified = false;
  table = no_vars;
}

-- newCookie = !vstore.LoadVCookie (*this), and the flags
abbrev pub after_load : Run (Bool × VCookie) → Run VCookie
unfolding clear_flags
after_load (Run.done (loaded, c)) = done (clear_flags (record c { new_cookie = not loaded }))
after_load Run.fault = Run.fault
after_load Run.out_of_fuel = Run.out_of_fuel

-- The constructor; `load` is the store's LoadVCookie.
unfoldable pub construct : (VCookie → Run (Bool × VCookie)) → ℕ → ℕ → ℕ → Bool → Run VCookie
unfolding clear_flags
construct load user vid_high vid_low true = done (clear_flags (initial user vid_high vid_low true))
construct load user vid_high vid_low false = after_load (load (initial user vid_high vid_low false))

-- Store: what SaveVCookie returns, or false if it throws (`none`), when the flags stay as they are.
-- The flags of the relation variables stay in either case.
unfoldable pub store : Option Bool → VCookie → VCookie × Bool
unfolding clear_flags
store none c = (c, false)
store (some saved) c = (clear_flags c, saved)

-- Reset keeps newCookie and the flags.
unfoldable pub reset : VCookie → ℕ → ℕ → ℕ → VCookie
reset c user vid_high vid_low = record c {
  userid = user;
  visid_high = vid_high;
  visid_low = vid_low;
  last_hit_time_gmt = 0;
  last_hit_time_visitor_local = 0;
  first_hit_time_gmt = 0;
  last_visit_num = 0;
  first_hit_referrer = [];
  first_hit_page_url = [];
  first_hit_pagename = [];
  last_purchase_time_gmt = 0;
  last_purchase_num = 0;
  purchase_ids = [];
  merchandising = [];
  table = no_vars;
}

abbrev pub set_first_hit_time_gmt : VCookie → ℕ → VCookie
set_first_hit_time_gmt c t = record c {
  modified = true;
  traffic_modified = true;
  first_hit_time_gmt = t;
}

abbrev pub set_last_hit_time_gmt : VCookie → ℕ → VCookie
set_last_hit_time_gmt c t = record c {
  modified = true;
  traffic_modified = true;
  last_hit_time_gmt = t;
}

abbrev pub set_last_hit_time_visitor_local : VCookie → ℕ → VCookie
set_last_hit_time_visitor_local c t = record c {
  modified = true;
  traffic_modified = true;
  last_hit_time_visitor_local = t;
}

abbrev pub set_last_visit_num : VCookie → ℕ → VCookie
set_last_visit_num c i = record c { modified = true; traffic_modified = true; last_visit_num = i }

abbrev pub set_last_purchase_time_gmt : VCookie → ℕ → VCookie
set_last_purchase_time_gmt c t = record c {
  modified = true;
  ecommerce_modified = true;
  last_purchase_time_gmt = t;
}

abbrev pub set_first_hit_referrer : VCookie → Bytes → VCookie
set_first_hit_referrer c s = record c {
  modified = true;
  ecommerce_modified = true;
  first_hit_referrer = s;
}

abbrev pub set_first_hit_url : VCookie → Bytes → VCookie
set_first_hit_url c s = record c {
  modified = true;
  ecommerce_modified = true;
  first_hit_page_url = s;
}

abbrev pub set_first_hit_pagename : VCookie → Bytes → VCookie
set_first_hit_pagename c s = record c {
  modified = true;
  ecommerce_modified = true;
  first_hit_pagename = s;
}

abbrev pub set_last_purchase_num : VCookie → ℕ → VCookie
set_last_purchase_num c i = record c {
  modified = true;
  ecommerce_modified = true;
  last_purchase_num = i;
}

abbrev pub set_merchandising : VCookie → Bytes → VCookie
set_merchandising c s = record c {
  modified = true;
  merchandising_modified = true;
  merchandising = s;
}

-- SetPurchaseId sets the flags only where the id was not in the list.
unfoldable pub set_purchase_id : VCookie → Bytes → VCookie × Bool
set_purchase_id c p =
    let (ids, added) = set_purchase_ids c.purchase_ids p in
    (
      record c {
        purchase_ids = ids;
        modified = c.modified || added;
        ecommerce_modified = c.ecommerce_modified || added;
      },
      added,
    )

-- ClearVar leaves the flags of the cookie alone.
unfoldable pub clear_cookie_var : VCookie → ℕ → VCookie
clear_cookie_var c rid = record c { table = clear_var c.table rid }

-- SetVar, with the VarId that it returns.
unfoldable pub set_cookie_var : VCookie → ℕ → RelVar → AllocationType → ℕ → VCookie × ℕ
set_cookie_var c rid e alloc max_linear =
    let r = set_var c.table rid e alloc max_linear in
    (
      record c {
        table = r.table;
        modified = c.modified || r.stored;
        rel_var_modified = c.rel_var_modified || r.stored;
      },
      r.var_id,
    )

-- AddLinearElement
unfoldable pub add_cookie_element : VCookie → ℕ → RelVar → VCookie
add_cookie_element c id e =
    let (t, stored) = add_linear_element c.table id e in
    record c {
      table = t;
      modified = c.modified || stored;
      rel_var_modified = c.rel_var_modified || stored;
    }

-- These two getters return the time of the last hit.
abbrev pub get_last_hit_time_visitor_local : VCookie → ℕ
get_last_hit_time_visitor_local c = c.last_hit_time_gmt

abbrev pub get_last_purchase_time_gmt : VCookie → ℕ
get_last_purchase_time_gmt c = c.last_hit_time_gmt

abbrev pub get_purchase_id_count : VCookie → ℕ
get_purchase_id_count c = length c.purchase_ids % 2 ^ 32
