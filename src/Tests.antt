-- ===== src/Tests.antt =====
-- Runs at concrete inputs, and the theorems at inputs that meet their hypotheses.
pub mod Cookies
pub mod Stores
pub mod Timers
pub mod Scenarios
pub mod Setup
pub mod Harness
pub mod Visitors
pub mod Threads
use elevator.Base.{
  All, suc, get_elem?, ℕ, ◌+◌, ◌-◌, ◌%◌, ◌^◌, ◌≤◌, ◌<◌, ◌≡◌, ◌≢◌, refl, inl, arith, Bool, true,
  false, not, List, [], ◌∷◌, ◌++◌, some, none, map, ◌==◌, ◌&&◌, if◌then◌else◌, length, drop, select,
  done, Bytes, bytes_eq, word,
}
use elevator.Cookie.{VCookie, initial, clear_flags, construct}
use elevator.Cookie.Vars.{
  RelVar, VarTable, AllocationType, alloc_type_linear, alloc_type_last, var_not_set, is_empty,
  find_relation_pos, find_relation_id, find_loop, clear_var, set_var, set_at, insert_var,
  store_element, add_linear_element, is_first,
}
use elevator.Cookie.Vars.Read.{
  get_var, get_var_element_count, get_next_set_var, get_next_modified_var, is_set, get_var_by_id,
}
use elevator.Cookie.Vars.Read.{get_first_set_var, get_set_var, next_pos, scan}
use elevator.Cookie.Equal.{
  vcookie_eq, same_members, same_ids, same_vars, same_elements, same_element, vcookie_eq-members,
  vcookie_ne,
}
use elevator.Cookie.Vars.View.{view, elements, update, id_at, IsWellFormed, IsLowerBound}
use elevator.Cookie.Vars.Search.{find_relation_pos-IsLowerBound}
use elevator.Cookie.Vars.Refine.{Holds, no_vars-Holds}
use elevator.Cookie.Vars.Lookup.{ceiling, get_var-ceiling, get_var_element_count-ceiling}
use elevator.Cookie.Vars.Linear.{Names, add_linear_element-Holds}
use elevator.Cookie.Vars.Update.{clear_ceiling, spec_set, clear_var-Holds, set_var-Holds}
use elevator.Cookie.Vars.Walk.{first_id, later, get_next_set_var_lem, get_next_modified_var_lem}
use elevator.Cookie.Vars.Effect.{store_element_lem}
use elevator.Cookie.Purchases.{set_purchase_ids, move_to_end, shift_left}
use elevator.Cookie.Purchases.Order.{
  occurs, without, Distinct, last_five, set_purchase_ids_lem, set_purchase_ids-IsValid,
}
use elevator.Codec.Write.{serialize}
use elevator.Codec.Read.{deserialize}
use elevator.Codec.Format.{document, field_bytes, vars_format, fields, number, text, purchases}
use elevator.Codec.Emit.{serialize-document, set_vars}
use elevator.Codec.AbsorbElements.{VarFits, loaded, ElementFits}
use elevator.Codec.RoundTrip.{CanSave, CanLoad, IsCopy, deserialize-serialize}
use elevator.Harness.{Timespec, timespec_sub}
use elevator.Harness.Monitor.{RateMonitor, push_seconds, increment, stop}
use elevator.Harness.Counts.{
  in_nanoseconds, IsReading, timespec_sub_lem, IsCaughtUp, increment-IsCaughtUp,
}
use elevator.Memory.{
  find, delete_vcookie, VCookieId, StoreMap, id_lt, save_vcookie, load_vcookie, delete_old_vcookies,
  time_lt, get_vcookie_count, get_vcookie,
}
use elevator.Memory.Keys.{id_lt_both}
use elevator.Memory.Purge.{is_before, delete_old_vcookies_lem, get_vcookie-never}
use elevator.Memory.Keys.{Orders}
use elevator.Memory.{vid}
use elevator.Base.{read_word}
use elevator.Memory.Equal.{vcookie_eq-construct}
use elevator.Memory.Undo.{delete_vcookie-save_vcookie}
use elevator.Memory.Restore.{construct-save_vcookie, load_vcookie-save_vcookie_ne}
use elevator.Codec.Valid.{IsValid, deserialize-IsValid}
use elevator.Codec.Loaded.{SameVisitor}
use elevator.Codec.Keep.{set_var-VarFits}
use elevator.Tests.Cookies.{element, table, table-IsWellFormed, ids, ids-Distinct}

-- A cookie with a few members, purchase ids and the variables above.
abbrev pub cookie : VCookie
cookie = record (initial 7 8 9 true) {
  first_hit_time_gmt = 1000;
  last_hit_time_gmt = 2000;
  first_hit_referrer = 104 ∷ 105 ∷ [];
  purchase_ids = ids;
  table = table;
}

pub cookie-CanSave : (save : Bool) → CanSave cookie save
unfolding fields number text purchases word
cookie-CanSave save = record {
  storable = omega arith;
  well_formed = table-IsWellFormed;
  vars = (
    record {
      rid_valid = omega arith;
      count = omega arith;
      each = (fits 20 (omega arith) (omega arith), (fits 21 (omega arith) (omega arith), tt));
    },
    (
      record {
        rid_valid = omega arith;
        count = omega arith;
        each = (fits 50 (omega arith) (omega arith), tt);
      },
      tt,
    ),
  );
  distinct = ids-Distinct;
  five = omega arith;
  size = by_save save;
}
  where
    fits : (n : ℕ) → n ≢ 0 → n < 256 → ElementFits (element n)
    fits n p q = record {
      no_nul = (p, (p, tt));
      not_empty = refl;
      timestamp_fits = omega arith;
      revision_fits = omega arith;
    }

    by_save : (save : Bool) → 7 + length (field_bytes cookie save) < 2 ^ 32
    by_save true = omega arith
    by_save false = omega arith

pub empty-CanLoad : CanLoad (initial 7 8 9 false) true
empty-CanLoad = record {
  blank = record {
    no_first_hit_time_gmt = refl;
    no_last_hit_time_visitor_local = refl;
    no_last_visit_num = refl;
    no_last_purchase_time_gmt = refl;
    no_first_hit_referrer = refl;
    no_first_hit_page_url = refl;
    no_first_hit_pagename = refl;
    no_last_purchase_num = refl;
    no_merchandising = refl;
    no_purchase_ids = refl;
  };
  no_hit = λ e. refl;
  no_table = no_vars-Holds;
}

serialize-document_example :
    serialize cookie true
    ≡ done (
        document
          (7 + length (field_bytes cookie true))
          (field_bytes cookie true)
          (vars_format (set_vars (view table))))
serialize-document_example =
    serialize-document cookie true table-IsWellFormed (omega arith) (omega arith)
      (cookie-CanSave true).size

deserialize-serialize_example :
    (buffer : Bytes) × (c' : VCookie) × (serialize cookie true ≡ done buffer)
    × (deserialize (initial 7 8 9 false) buffer ≡ done (true, c'))
    × IsCopy cookie true (initial 7 8 9 false) c'
deserialize-serialize_example =
    deserialize-serialize cookie true (initial 7 8 9 false) (cookie-CanSave true) empty-CanLoad

construct-save_vcookie_example :
    (store' : StoreMap) × (c' : VCookie) × (save_vcookie [] cookie ≡ done (store', true))
    × Orders (vid cookie) store'
    × (construct (load_vcookie store') 7 8 9 false ≡ done c')
    × (c' ≡ record (clear_flags cookie) {
      new_cookie = false;
      last_hit_time_visitor_local = 2000;
      last_purchase_time_gmt = 2000;
      table = c'.table;
    })
    × Holds c'.table (map loaded (set_vars (view table)))
construct-save_vcookie_example = construct-save_vcookie [] cookie (cookie-CanSave false) (tt, tt)

abbrev node : ℕ → ℕ → VCookieId × (ℕ × Bytes)
node n hit = (record { userid = n; visid_high = n; visid_low = n }, (hit, []))

abbrev nodes : StoreMap
nodes = node 1 100 ∷ node 2 300 ∷ node 3 200 ∷ []

nodes-Orders : Orders (vid cookie) nodes
unfolding id_lt
nodes-Orders = (((refl, (refl, tt)), ((refl, tt), (tt, tt))), (refl, (refl, (refl, tt))))

delete_old_vcookies_run : delete_old_vcookies nodes 250 ≡ (node 2 300 ∷ [], 2)
unfolding delete_old_vcookies time_lt
delete_old_vcookies_run = refl

delete_old_vcookies_lem_example :
    ((delete_old_vcookies nodes 250).0 ≡ select (λ x. not (is_before x.1.0 250)) nodes)
    × ((delete_old_vcookies nodes 250).1 + get_vcookie_count (delete_old_vcookies nodes 250).0
        ≡ get_vcookie_count nodes)
delete_old_vcookies_lem_example =
    delete_old_vcookies_lem 250 nodes (unfold get_vcookie_count in omega arith) (omega arith)
      (omega arith)

get_vcookie-never_example : get_vcookie 1000 nodes cookie 1 ≢ done (true, cookie)
get_vcookie-never_example =
    get_vcookie-never 1000 1 nodes cookie (true, cookie) (omega arith)
      (unfold get_vcookie_count in omega arith)

abbrev id_a : VCookieId
id_a = record { userid = 1; visid_high = 2; visid_low = 0 }

abbrev id_b : VCookieId
id_b = record { userid = 2; visid_high = 1; visid_low = 0 }

-- Each of the two ids is less than the other.
both_less : (id_lt id_a id_b ≡ true) × (id_lt id_b id_a ≡ true)
unfolding id_lt
both_less = (refl, refl)

-- The store after a save is the witness's own: the run of save_vcookie on these nodes.
saved_store : (s : StoreMap) × (save_vcookie nodes cookie ≡ done (s, true))
saved_store =
    let (s, c', e, ordered, rest, more, table) =
      construct-save_vcookie nodes cookie (cookie-CanSave false) nodes-Orders in
    (s, e)

vcookie_eq-construct_example :
    (store' : StoreMap) × (c' : VCookie) × (save_vcookie nodes cookie ≡ done (store', true))
    × (construct (load_vcookie store') 7 8 9 false ≡ done c')
    × (vcookie_eq 3 cookie c' ≡ done true)
    × (vcookie_ne 3 cookie c' ≡ done false)
vcookie_eq-construct_example = vcookie_eq-construct nodes cookie (cookie-CanSave false) nodes-Orders

delete_vcookie-save_vcookie_example :
    (delete_vcookie nodes cookie ≡ (nodes, false))
    × (store' : StoreMap) × (save_vcookie nodes cookie ≡ done (store', true))
    × Orders (vid cookie) store'
    × (get_vcookie_count store' ≡ suc (get_vcookie_count nodes))
    × (delete_vcookie store' cookie ≡ (nodes, true))
delete_vcookie-save_vcookie_example =
    delete_vcookie-save_vcookie nodes cookie (cookie-CanSave false) nodes-Orders
      (unfold find id_lt in refl)

abbrev reading : ℕ → ℕ → Timespec
reading sec nsec = record { tv_sec = sec; tv_nsec = nsec }

later_reading : IsReading (reading 103 5)
later_reading = record { below_second = omega arith; below_word = omega arith }

abbrev monitor : RateMonitor
monitor = record { clock_prev = reading 100 7; events_per_second = 4 ∷ []; events_count = 9 }

stop_run :
    stop monitor (reading 101 900000007)
    ≡ done (record { clock_prev = reading 0 7; events_per_second = 4 ∷ 9 ∷ []; events_count = 0 })
unfolding stop push_seconds timespec_sub
stop_run = refl

increment-IsCaughtUp_example :
    (m' : RateMonitor) × (increment monitor 3 (reading 103 4) (reading 103 5)
      ≡ done (record m' { events_count = (m'.events_count + 3) % 2 ^ 64 }))
    × IsCaughtUp (reading 103 5) monitor m'
increment-IsCaughtUp_example =
    increment-IsCaughtUp monitor 3 (reading 103 4) (reading 103 5) later_reading (omega arith)
      (omega arith)

-- Two cookies with the same variable 2, of which the second has a variable 5 too: operator == answers
-- true one way and false the other.
abbrev short : VCookie
short = record (initial 7 8 9 true) {
  table = record {
    rel_var = record { relation_id = 2; modified = true; var = element 20 ∷ [] } ∷ [];
    rel_var_sort = 0 ∷ [];
  };
}

abbrev long : VCookie
long = record (initial 7 8 9 true) {
  table = record {
    rel_var =
        record { relation_id = 2; modified = true; var = element 20 ∷ [] }
        ∷ record { relation_id = 5; modified = true; var = element 50 ∷ [] }
        ∷ [];
    rel_var_sort = 0 ∷ 1 ∷ [];
  };
}

short_eq_long : vcookie_eq 3 short long ≡ done true
unfolding vcookie_eq same_members same_ids same_vars same_elements same_element bytes_eq
    get_first_set_var get_next_set_var get_set_var next_pos scan get_var_element_count get_var_by_id
    find_relation_id find_relation_pos find_loop
short_eq_long = refl

long_ne_short : vcookie_eq 3 long short ≡ done false
unfolding vcookie_eq same_members same_ids same_vars same_elements same_element bytes_eq
    get_first_set_var get_next_set_var get_set_var next_pos scan get_var_element_count get_var_by_id
    find_relation_id find_relation_pos find_loop
long_ne_short = refl

set_var-VarFits_example :
    (IsWellFormed (set_var table 3 (element 30) alloc_type_linear 2).table
      × All VarFits (view (set_var table 3 (element 30) alloc_type_linear 2).table))
    × (IsWellFormed (clear_var table 3) × All VarFits (view (clear_var table 3)))
set_var-VarFits_example =
    set_var-VarFits table 3 (element 30) alloc_type_linear 2 (cookie-CanSave false).well_formed
      (cookie-CanSave false).vars (omega arith) (omega arith) (λ e. element-ElementFits)
      (unfold elements in omega arith)
  where
    element-ElementFits : ElementFits (element 30)
    element-ElementFits = record {
      no_nul = (omega arith, (omega arith, tt));
      not_empty = refl;
      timestamp_fits = omega arith;
      revision_fits = omega arith;
    }

-- A document of format 0 with a last visit number, and a variable of two elements, the first without a value.
abbrev damaged : Bytes
damaged =
    0 ∷ 0 ∷ 0 ∷ 14 ∷ 0 ∷ 0 ∷ 0 ∷ 4 ∷ 255 ∷ 255 ∷ 255 ∷ 255 ∷ 0 ∷ 0 ∷ 3 ∷ 0 ∷ 2 ∷ 0 ∷ 0 ∷ 0 ∷ 0 ∷ 1
    ∷ 0 ∷ 0 ∷ 0 ∷ 0 ∷ 0 ∷ 0 ∷ 0 ∷ 1 ∷ 65 ∷ 0 ∷ 1 ∷ []

deserialize-IsValid_example :
    (answer : Bool) × (c' : VCookie) × (deserialize (initial 7 8 9 false) damaged
      ≡ done (answer, c'))
    × IsValid c'
    × SameVisitor (initial 7 8 9 false) c'
deserialize-IsValid_example =
    deserialize-IsValid (initial 7 8 9 false) damaged
      (
        omega arith,
        λ offset rest e.
            let k : offset ≡ 14 = unfold read_word in ground (arith, e) in omega (arith, k),
      )
      (record {
        storable = omega arith;
        hit_local = omega arith;
        purchase_time = omega arith;
        distinct = tt;
        five = omega arith;
        well_formed = no_vars-Holds.well_formed;
      })
