-- ===== src/Tests/Harness.antt =====
-- The test harness at inputs that meet the theorems' hypotheses.
use elevator.Base.{
  ℕ, zero, suc, ◌-◌, ◌^◌, ◌≡◌, ◌≢◌, refl, sym, subst, arith, true, false, List, [], ◌∷◌, ◌++◌,
  Option, none, some, Run, done, Bytes, bytes_eq, ◌==◌, if◌then◌else◌,
}
use elevator.Base.Text.{codes}
use elevator.Cookie.{VCookie, initial, construct, clear_flags}
use elevator.Cookie.Vars.{no_vars}
use elevator.Codec.RoundTrip.{CanSave}
use elevator.Codec.Format.{fields, number, text, purchases}
use elevator.Memory.{StoreMap, vid, time_lt, load_vcookie}
use elevator.Memory.Keys.{Orders}
use elevator.Store.Stores.{in_memory, nop}
use elevator.Harness.{timespec_sub}
use elevator.Harness.Timer.{stop_timer}
use elevator.Tests.Timers.{reading}
use elevator.Harness.Aggregate.{Measures}
use elevator.Harness.Control.{RateControl, replay_control, ReplayRate, increment_and_wait, went_on}
use elevator.Harness.Control.{rate_control, Clocks}
use elevator.Harness.Control.Waits.{IsFirst, rate_due, rate_sleep, counted, increment_and_wait-rate}
use elevator.Harness.Hits.{HitData, Boost}
use elevator.Harness.Hits.Source.{
  HitSource, Files, hit, no_hit, undefined, out_of_fuel, read_hit, next_hit,
}
use elevator.Harness.Hits.Lines.{
  reads_left, bytes_left, next_hit-ne-out_of_fuel, next_hit-ne-undefined,
}
use elevator.Harness.Worker.{process_hit, update_cookie}
use elevator.Cookie.Vars.Refine.{no_vars-Holds}
use elevator.Cookie.Vars.{clear_var, find_relation_id, find_relation_pos, find_loop}
use elevator.Cookie.Vars.Read.{get_var, get_var_by_id}
use elevator.Cookie.{clear_cookie_var, set_purchase_id}
use elevator.Cookie.Purchases.{set_purchase_ids, move_to_end}
use elevator.Cookie.Purchases.Order.{occurs}
use elevator.Base.{word}
use elevator.Nop
use elevator.Harness.Monitor.{increment, push_seconds}
use elevator.Harness.Timer.{start_timer, push_means}
use elevator.Harness.Worker.Visits.{Remembers, process_hit-Remembers, update_cookie-no_vars}
use elevator.Harness.Worker.Loop.{Round, WorkerState, run_worker, start_worker}
use elevator.Harness.Worker.Stored.{process_hits, Serves, run_worker-process_hits}

abbrev worker : ℕ → Measures
worker n = record { rates = n ∷ 5 ∷ []; read_means = 10 ∷ n ∷ 3 ∷ []; write_means = n ∷ [] }

-- One event each millisecond; the third is due at three of them.
abbrev paced : RateControl
paced = record (rate_control 1000) { clock_prev = reading 100 0; events_count = 2 }

abbrev paced_clocks : Clocks
paced_clocks = record { readings = reading 100 1000 ∷ reading 100 3000000 ∷ []; times = [] }

-- It sleeps for 2999 microseconds at the first reading and goes on at the second.
paced_run :
    increment_and_wait (record { times = λ t. t; over = λ t. t }) paced 1 60 paced_clocks
    ≡ (counted paced 1, went_on (2999 ∷ []) [])
unfolding increment_and_wait timespec_sub
paced_run = refl

increment_and_wait-rate_example :
    ((increment_and_wait (record { times = λ t. t; over = λ t. t }) paced 1 60 paced_clocks).0
      ≡ counted paced 1)
    × IsFirst
        (rate_due 3000000 (reading 100 0))
        (rate_sleep 3000000 (reading 100 0))
        (reading 100 1000 ∷ reading 100 3000000 ∷ [])
        (increment_and_wait (record { times = λ t. t; over = λ t. t }) paced 1 60 paced_clocks).1
increment_and_wait-rate_example =
    increment_and_wait-rate (record { times = λ t. t; over = λ t. t }) paced 1 60 paced_clocks refl
      (omega arith)

-- A boost that splits at tabs, replaces nothing, and reads one digit.
abbrev first_piece : ℕ → List Bytes → List Bytes
first_piece b [] = (b ∷ []) ∷ []
first_piece b (p ∷ ps) = (b ∷ p) ∷ ps

abbrev split_tabs : Bytes → List Bytes
split_tabs [] = [] ∷ []
split_tabs (b ∷ bs) =
    let pieces = split_tabs bs in if b == 9 then [] ∷ pieces else first_piece b pieces

abbrev cast_char : Bytes → Option ℕ
cast_char [] = none
cast_char (b ∷ []) = some b
cast_char (b ∷ c ∷ bs) = none

abbrev pub boost : Boost
boost = record {
  split = split_tabs;
  regex_replace = λ s pattern_text replacement. s;
  cast_ulong = λ s. elim (cast_char s) [ none ↦ none | some b ↦ some (b - 48) ];
  cast_char = cast_char;
}

abbrev tabs : ℕ → Bytes → Bytes
tabs zero rest = rest
tabs (suc n) rest = 9 ∷ tabs n rest

-- A line with another number of fields, and one with a new visitor's hit.
abbrev day : Bytes
day =
    codes "short"
    ++ (10 ∷ codes "7")
    ++ (9 ∷ codes "Y")
    ++ (9 ∷ codes "3")
    ++ (9 ∷ codes "8")
    ++ (9 ∷ codes "9")
    ++ (9 ∷ codes "5")
    ++ (9 ∷ codes "2")
    ++ (9 ∷ codes "from")
    ++ (9 ∷ codes "url")
    ++ (9 ∷ codes "page")
    ++ (9 ∷ codes "0")
    ++ (9 ∷ codes "p1")
    ++ tabs 2 (codes "evar" ++ tabs 74 (10 ∷ []))

abbrev pub files : Files
files name = if bytes_eq name (codes "day") then some day else none

-- The first file is not there.
abbrev pub source : HitSource
source = record {
  is_open = false;
  eof = false;
  unread = [];
  filenames = codes "day" ∷ codes "lost" ∷ [];
}

abbrev evars : ℕ → List Bytes
evars zero = []
evars (suc n) = [] ∷ evars n

abbrev pub visit : HitData
visit = record {
  rsid = 7;
  visid_high = 8;
  visid_low = 9;
  visid_new = true;
  hit_time_gmt = 5;
  visit_num = 2;
  referrer = codes "from";
  page_url = codes "url";
  page_name = codes "page";
  purchase_time_gmt = 0;
  purchaseid = codes "p1";
  campaign = [];
  evar = codes "evar" ∷ evars 74;
}

-- The short line is passed over.
pub next_hit_run :
    next_hit boost 9 files source
    ≡ hit visit (record { is_open = true; eof = false; unread = []; filenames = codes "lost" ∷ [] })
unfolding next_hit read_hit bytes_eq
next_hit_run = refl

-- A file that cannot be opened ends the hits, although another follows.
next_hit_lost :
    next_hit boost 9 files (record source { filenames = codes "lost" ∷ codes "day" ∷ [] })
    ≡ no_hit (record source { filenames = codes "day" ∷ [] })
unfolding next_hit bytes_eq
next_hit_lost = refl

next_hit-ne-out_of_fuel_example : next_hit boost 200 files source ≢ out_of_fuel
next_hit-ne-out_of_fuel_example =
    next_hit-ne-out_of_fuel boost 200 files source
      (unfold reads_left bytes_left bytes_eq in omega arith)

next_hit-ne-undefined_example : next_hit boost 9 files source ≢ undefined
next_hit-ne-undefined_example = next_hit-ne-undefined boost 9 files source

abbrev new_cookie : VCookie
new_cookie = clear_flags (initial 7 8 9 true)

update_cookie-no_vars_example : (update_cookie new_cookie visit).table ≡ no_vars
update_cookie-no_vars_example = update_cookie-no_vars new_cookie visit (unfold clear_flags in refl)

abbrev pub visited : VCookie
visited = record (initial 7 8 9 true) {
  modified = true;
  traffic_modified = true;
  ecommerce_modified = true;
  first_hit_time_gmt = 5;
  last_hit_time_gmt = 5;
  last_hit_time_visitor_local = 2 ^ 64 - 25195;
  last_visit_num = 2;
  first_hit_referrer = codes "from";
  first_hit_page_url = codes "url";
  first_hit_pagename = codes "page";
  last_purchase_num = 1;
  purchase_ids = codes "p1" ∷ [];
}

updated : update_cookie new_cookie visit ≡ visited
unfolding update_cookie clear_flags get_var get_var_by_id find_relation_id find_relation_pos
    find_loop clear_cookie_var clear_var set_purchase_id set_purchase_ids move_to_end
updated = refl

pub visited-CanSave : CanSave visited false
unfolding fields number text purchases word occurs
visited-CanSave = record {
  storable = omega arith;
  well_formed = no_vars-Holds.well_formed;
  vars = tt;
  distinct = (refl, tt);
  five = omega arith;
  size = omega arith;
}

new_visit : construct (load_vcookie []) 7 8 9 true ≡ done new_cookie
unfolding construct clear_flags
new_visit = refl

process_hit-Remembers_example :
    let u = update_cookie new_cookie visit in
    (s' : StoreMap) × (c' : VCookie) × (process_hit in_memory [] visit ≡ done s')
    × Orders (vid u) s'
    × (construct (load_vcookie s') u.userid u.visid_high u.visid_low false ≡ done c')
    × (c'.new_cookie ≡ false)
    × Remembers visit new_cookie c'
process_hit-Remembers_example =
    process_hit-Remembers [] visit new_cookie new_visit
      (subst (λ (c : VCookie). CanSave c false) (sym updated) visited-CanSave) (tt, tt)

-- A run of two requests for one hit, on the store that keeps nothing.
abbrev pub replay_rate : ReplayRate
replay_rate = record { times = λ t. t; over = λ t. t }

abbrev pub round : Round
round = record {
  monitor_start = reading 100 1;
  monitor_now = reading 100 2;
  control = record { readings = reading 100 3 ∷ reading 100 900000000 ∷ []; times = [] };
  read_first = reading 101 0;
  read_start = reading 101 1;
  read_stop = reading 101 2;
  write_first = reading 101 3;
  write_start = reading 101 4;
  write_stop = reading 101 5;
}

abbrev begin : WorkerState (Unit {0})
begin = start_worker source tt (some 10) (reading 0 0) (reading 100 0) (reading 100 0)

abbrev result : Run (WorkerState (Unit {0})) → WorkerState (Unit {0})
result (done w) = w
result Run.fault = begin
result Run.out_of_fuel = begin

abbrev final : WorkerState (Unit {0})
final = result (run_worker boost replay_rate files nop 9 (round ∷ round ∷ []) begin)

-- One event is measured, and one wait of a tenth of a second.
final_events : final.monitor.events_count ≡ 1
unfolding run_worker next_hit read_hit bytes_eq start_worker increment increment_and_wait
    start_timer stop_timer push_means push_seconds timespec_sub construct clear_flags update_cookie
    get_var get_var_by_id find_relation_id find_relation_pos find_loop clear_cookie_var clear_var
    set_purchase_id set_purchase_ids move_to_end Nop.load_vcookie Nop.save_vcookie
final_events = refl

finished : run_worker boost replay_rate files nop 9 (round ∷ round ∷ []) begin ≡ done final
unfolding run_worker next_hit read_hit bytes_eq start_worker increment increment_and_wait
    start_timer stop_timer push_means push_seconds timespec_sub construct clear_flags update_cookie
    get_var get_var_by_id find_relation_id find_relation_pos find_loop clear_cookie_var clear_var
    set_purchase_id set_purchase_ids move_to_end Nop.load_vcookie Nop.save_vcookie
finished = refl

run_worker-process_hits_example :
    (hits : List HitData) × Serves boost replay_rate files nop 9 2 source hits
    × (process_hits nop tt hits ≡ done final.store)
unfolding start_worker
run_worker-process_hits_example =
    run_worker-process_hits boost replay_rate files nop 9 (round ∷ round ∷ []) begin final finished

abbrev replaying : RateControl
replaying = record replay_control { first_hit_time = 50; start_clock_time = 1000; events_count = 3 }

-- At 1004 it is the time 54, and at 1011 the time 61.
abbrev replay_clocks : Clocks
replay_clocks = record { readings = []; times = 1004 ∷ 1011 ∷ [] }

replaying_run :
    increment_and_wait replay_rate replaying 1 60 replay_clocks
    ≡ (counted replaying 1, went_on (5000000 ∷ []) [])
unfolding increment_and_wait time_lt
replaying_run = refl
