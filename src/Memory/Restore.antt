-- ===== src/Memory/Restore.antt =====
-- A cookie that is saved in the in-memory store is what a later VCookie of the same visitor loads.
use elevator.Base.{◌≡◌, refl, ap, ◌∙◌, true, false, [], map, Run, done, Bytes, All, ◌||◌}
use elevator.Cookie.{VCookie, construct, initial, clear_flags, after_load, set_last_hit_time_gmt}
use elevator.Cookie.Vars.View.{view}
use elevator.Cookie.Vars.Refine.{Holds, no_vars-Holds}
use elevator.Codec.Write.{serialize}
use elevator.Codec.Emit.{set_vars}
use elevator.Codec.AbsorbElements.{loaded}
use elevator.Codec.RoundTrip.{CanSave, CanLoad, deserialize-serialize}
use elevator.Memory.{
  StoreMap, vid, save_vcookie, load_vcookie, load_found, assign, insert, find, id_lt,
}
use elevator.Memory.Keys.{
  find-assign-insert, find-assign-insert_ne, Comparable, Orders, assign-insert-Orders,
}

-- The cookie into which LoadVCookie reads.
abbrev pub found_by : VCookie → VCookie
found_by c =
    set_last_hit_time_gmt (initial c.userid c.visid_high c.visid_low false) c.last_hit_time_gmt

pub found_by-CanLoad : (c : VCookie) → CanLoad (found_by c) false
found_by-CanLoad c = record {
  blank = record {
    no_first_hit_time_gmt = refl;
    no_last_hit_time_visitor_local = refl;
    no_last_visit_num = refl;
    no_last_purchase_time_gmt = refl;
    no_first_hit_referrer = refl;
    no_first_hit_page_url = refl;
    no_first_hit_pagename = refl;
    no_last_purchase_num = refl;
    no_merchandising = refl;
    no_purchase_ids = refl;
  };
  no_hit = λ e. cc;
  no_table = no_vars-Holds;
}

-- Where operator < orders the visitor's id and the ids in the store, it still does after SaveVCookie of a cookie
-- that can be saved, and the constructor then finds the visitor's record: the cookie is not new, no flag is
-- set, each member is that of the saved cookie (the two times whose getters return the time of the
-- last hit are that), and the variables are the saved cookie's non-empty ones.
pub construct-save_vcookie :
    (store : StoreMap) (c : VCookie)
    → CanSave c false
    → Orders (vid c) store
    → (store' : StoreMap) × (c' : VCookie) × (save_vcookie store c ≡ done (store', true))
      × Orders (vid c) store'
      × (construct (load_vcookie store') c.userid c.visid_high c.visid_low false ≡ done c')
      × (c' ≡ record (clear_flags c) {
        new_cookie = false;
        last_hit_time_visitor_local = c.last_hit_time_gmt;
        last_purchase_time_gmt = c.last_hit_time_gmt;
        table = c'.table;
      })
      × Holds c'.table (map loaded (set_vars (view c.table)))
unfolding save_vcookie load_vcookie construct clear_flags
construct-save_vcookie store c s h =
    let (buffer, c1, saved, read, copy) =
      deserialize-serialize c false (found_by c) s (found_by-CanLoad c) in
    (
      assign (vid c) (c.last_hit_time_gmt, buffer) (insert (vid c) (c.last_hit_time_gmt, []) store),
      clear_flags (record c1 { new_cookie = false }),
      rw saved,
      assign-insert-Orders (vid c) (c.last_hit_time_gmt, []) (c.last_hit_time_gmt, buffer) store h,
      ap after_load (
          ap (load_found (initial c.userid c.visid_high c.visid_low false)) (
            find-assign-insert (vid c) (c.last_hit_time_gmt, []) (c.last_hit_time_gmt, buffer)
              store)
          ∙ read),
      ap (λ (r : VCookie). record r { new_cookie = false }) copy.members,
      copy.variables,
    )

-- SaveVCookie changes nothing for a visitor whose id differs, where operator < orders the ids and those in the store: a
-- LoadVCookie of that visitor does what it did before.
pub load_vcookie-save_vcookie_ne :
    (store store' : StoreMap) (c d : VCookie)
    → save_vcookie store c ≡ done (store', true)
    → Comparable (vid d) (vid c)
    → (id_lt (vid d) (vid c) || id_lt (vid c) (vid d)) ≡ true
    → All (λ x. Comparable (vid d) x.0 × Comparable (vid c) x.0) store
    → load_vcookie store' d ≡ load_vcookie store d
unfolding save_vcookie load_vcookie
load_vcookie-save_vcookie_ne store store' c d saved order differ all =
    by_buffer (serialize c false) refl
  where
    written : Bytes → StoreMap
    written buffer =
        assign (vid c) (c.last_hit_time_gmt, buffer)
          (insert (vid c) (c.last_hit_time_gmt, []) store)

    by_buffer :
        (r : Run Bytes)
        → serialize c false ≡ r
        → load_found d (find (vid d) store') ≡ load_found d (find (vid d) store)
    by_buffer (done buffer) e =
        let same : done (written buffer, true) ≡ done (store', true) = rw e at saved in
        let node =
          find-assign-insert_ne (vid d) (vid c) (c.last_hit_time_gmt, [])
            (c.last_hit_time_gmt, buffer) store order differ all in
        let eq : written buffer ≡ store' = cc same in ap (load_found d) (rw (← eq) node)
    by_buffer Run.fault e = let k : Run.fault ≡ done (store', true) = rw e at saved in cc k
    by_buffer Run.out_of_fuel e =
        let k : Run.out_of_fuel ≡ done (store', true) = rw e at saved in cc k
