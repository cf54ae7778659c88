-- ===== src/Tests/Visitors.antt =====
-- Runs of hits of several visitors at concrete inputs.
use mathlib.Core.Quot
use elevator.Base.{some, ℕ, ◌≡◌, refl, arith, Bool, true, false, List, [], ◌∷◌, done}
use elevator.Memory.{StoreMap, id_lt}
use elevator.Memory.Keys.{Comparable, AreComparable}
use elevator.Memory.Apart.{id_of, AllServed, in_memory-KeepsApart}
use elevator.Store.Contract.{Visitor, KeepsApart, Agree}
use elevator.Store.Stores.{in_memory}
use elevator.Harness.Hits.{HitData}
use elevator.Harness.Worker.Stored.{process_hits}
use elevator.Harness.Worker.Visitors.{hits_of, process_hits-hits_of}
use elevator.Harness.Worker.Visitors.Orders.{Records, process_hits_reordered}
use elevator.Harness.Worker.Changes.{IsHit}
use elevator.Harness.Worker.Served.{HoldsBytes, process_hits-HoldsBytes}
use elevator.Harness.Worker.Loop.{WorkerState, start_worker, run_worker}
use elevator.Harness.Worker.Stored.{Serves, serves, enough}
use elevator.Harness.Worker.Ends.{AreReadings, IsReady, run_worker-done}
use elevator.Tests.Timers.{reading}
use elevator.Tests.Harness.{source, files, boost, replay_rate, round, next_hit_run, visit}

-- The visitors of one user whose ids have one high part.
abbrev OfUser : Visitor → Type 0
OfUser v = (v.0 ≡ 7) × (v.1 ≡ 8)

ordered : (a b : Visitor) → OfUser a → OfUser b → Comparable (id_of a) (id_of b)
unfolding id_lt
ordered a b p q = ground arith

apart : KeepsApart in_memory OfUser (AllServed OfUser)
apart = in_memory-KeepsApart OfUser ordered

in_memory-KeepsApart_example : KeepsApart in_memory OfUser (AllServed OfUser)
in_memory-KeepsApart_example = in_memory-KeepsApart OfUser ordered

abbrev visit_of : ℕ → HitData
visit_of low = record visit { visid_low = low }

-- A later visit.
abbrev visit_again : ℕ → HitData
visit_again low = record visit { visid_low = low; visid_new = false; hit_time_gmt = 60 }

abbrev hits : List HitData
hits = visit_of 1 ∷ visit_of 2 ∷ visit_again 1 ∷ []

abbrev sorted_hits : List HitData
sorted_hits = visit_of 1 ∷ visit_again 1 ∷ visit_of 2 ∷ []

visit-IsHit :
    (low : ℕ) (is_new : Bool) (time : ℕ)
    → IsHit (record visit { visid_low = low; visid_new = is_new; hit_time_gmt = time })
visit-IsHit low is_new time = record {
  referrer = omega arith;
  page_url = omega arith;
  page_name = omega arith;
  purchaseid = omega arith;
  evars = omega arith;
  evar_count = omega arith;
}

-- What a run over hits of the user leaves.
abbrev Left : List HitData → Type 0
Left hits =
    (s' : StoreMap) × (process_hits in_memory [] hits ≡ done s')
    × HoldsBytes s'
    × AllServed OfUser s'
    × AreComparable s'

hits_run : Left hits
hits_run =
    process_hits-HoldsBytes OfUser ordered hits []
      (visit-IsHit 1 true 5, (visit-IsHit 2 true 5, (visit-IsHit 1 false 60, tt))) (omega arith) tt
      tt

process_hits-HoldsBytes_example : Left hits
process_hits-HoldsBytes_example =
    process_hits-HoldsBytes OfUser ordered hits []
      (visit-IsHit 1 true 5, (visit-IsHit 2 true 5, (visit-IsHit 1 false 60, tt))) (omega arith) tt
      tt

process_hits-hits_of_example :
    (t' : StoreMap) × (process_hits in_memory [] (visit_of 1 ∷ visit_again 1 ∷ []) ≡ done t')
    × Agree in_memory OfUser (AllServed OfUser) (7, 8, 1) hits_run.0 t'
process_hits-hits_of_example =
    process_hits-hits_of in_memory OfUser (AllServed OfUser) apart (7, 8, 1) hits [] [] hits_run.0
      (refl, refl) (omega arith) tt (λ d. refl) hits_run.1

same_hits : (v : Visitor) → hits_of v hits ≡ hits_of v sorted_hits
same_hits v = ground arith

process_hits_reordered_example :
    (s2 : StoreMap) × (process_hits in_memory [] sorted_hits ≡ done s2)
    × ◌≡◌ {A = Records in_memory OfUser (AllServed OfUser) apart} (Quot.mk hits_run.0) (Quot.mk s2)
process_hits_reordered_example =
    process_hits_reordered in_memory OfUser (AllServed OfUser) apart hits sorted_hits [] hits_run.0
      (omega arith) (omega arith) tt (λ v p. same_hits v) hits_run.1

visit_run : Left (visit ∷ [])
visit_run =
    process_hits-HoldsBytes OfUser ordered (visit ∷ []) [] (visit-IsHit 9 true 5, tt) (omega arith)
      tt tt

-- A worker with the request rate 0.
abbrev free_worker : WorkerState StoreMap
free_worker = start_worker source [] (some 0) (reading 0 0) (reading 100 0) (reading 100 0)

round-AreReadings : AreReadings round
round-AreReadings = record {
  monitor_start = omega arith;
  monitor_now = omega arith;
  read_first = omega arith;
  read_stop = omega arith;
  write_first = omega arith;
  write_stop = omega arith;
}

free_worker-IsReady : IsReady free_worker
unfolding start_worker
free_worker-IsReady = record {
  monitor = omega arith;
  read_timer = omega arith;
  write_timer = omega arith;
  event_mode = refl;
  no_rate = refl;
}

one_visit : Serves boost replay_rate files in_memory 9 1 source (visit ∷ [])
one_visit = serves 0 source _ visit [] next_hit_run (enough _)

run_worker-done_example :
    (w' : WorkerState StoreMap) × (run_worker boost replay_rate files in_memory 9
        (round ∷ [])
        free_worker
      ≡ done w')
    × (w'.store ≡ visit_run.0)
unfolding start_worker
run_worker-done_example =
    run_worker-done boost replay_rate files in_memory 9 (round ∷ []) free_worker (visit ∷ [])
      visit_run.0 (round-AreReadings, tt) free_worker-IsReady one_visit visit_run.1
