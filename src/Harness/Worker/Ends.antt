-- ===== src/Harness/Worker/Ends.antt =====
-- The loop of WorkerThread (testharness.cpp) ends, where its clocks are read and no request rate is set.
use elevator.Base.{
  ℕ, zero, suc, ◌+◌, ◌%◌, ◌^◌, ◌<◌, ◌≡◌, refl, sym, ap, ◌∙◌, arith, Bool, true, false, List, [],
  ◌∷◌, length, All, ltb, ◌==◌, if◌then◌else◌, Bool-cases, inl, inr, Run, done,
}
use elevator.Base.Outcome.{◌>>=◌, >>=-eq-done, done-inj}
use elevator.Cookie.{construct}
use elevator.Harness.{Timespec, timespec_sub, nanosecond}
use elevator.Harness.Monitor.{RateMonitor, start, push_second, push_seconds, increment}
use elevator.Harness.Counts.{IsReading, push_seconds-IsCaughtUp}
use elevator.Harness.Timer.{HiResTimer, push_mean, push_means, count_event, start_timer, stop_timer}
use elevator.Harness.Timer.Seconds.{push_means-IsUpToDate, stop_timer_once}
use elevator.Harness.Control.{
  ReplayRate, RateControl, event_based, Clocks, went_on, increment_and_wait,
}
use elevator.Harness.Hits.{HitData, Boost}
use elevator.Harness.Hits.Source.{HitSource, Files}
use elevator.Harness.Worker.{update_cookie, process_hit}
use elevator.Harness.Worker.Loop.{Round, WorkerState, do_hit, run_worker}
use elevator.Harness.Worker.Stored.{process_hits, Serves, enough, ended, serves}
use elevator.Store.{VCookieStore}

-- What the clocks answer in a round.
pub record AreReadings (r : Round) : Type 0 where
  pub monitor_start : IsReading r.monitor_start
  pub monitor_now : IsReading r.monitor_now
  pub read_first : IsReading r.read_first
  pub read_stop : IsReading r.read_stop
  pub write_first : IsReading r.write_first
  pub write_stop : IsReading r.write_stop

-- The last reading of each clock has less than a second of nanoseconds, also that of a timer, which its
-- constructor does not set; and there is no request rate.
pub record IsReady {S : Type 0} (w : WorkerState S) : Type 0 where
  pub monitor : w.monitor.clock_prev.tv_nsec < nanosecond
  pub read_timer : w.read_timer.clock_prev.tv_nsec < nanosecond
  pub write_timer : w.write_timer.clock_prev.tv_nsec < nanosecond
  pub event_mode : w.controller.mode ≡ event_based
  pub no_rate : w.controller.events_per_second ≡ 0

push_seconds-nsec :
    (fuel : ℕ) (now : Timespec) (m m' : RateMonitor)
    → push_seconds fuel now m ≡ done m'
    → m'.clock_prev.tv_nsec ≡ m.clock_prev.tv_nsec
unfolding push_seconds
push_seconds-nsec zero now m m' e = absurd (cc e)
push_seconds-nsec (suc fuel) now m m' e =
    elim (Bool-cases (ltb nanosecond (timespec_sub now m.clock_prev))) [
      | inl behind ↦ push_seconds-nsec fuel now (push_second m) m' (rw behind at e)
      | inr rest ↦
          let k : done m ≡ done m' = rw rest at e in
          ap (λ (x : RateMonitor). x.clock_prev.tv_nsec) (sym (done-inj m m' k))
    ]

push_means-nsec :
    (fuel : ℕ) (now : Timespec) (t t' : HiResTimer)
    → push_means fuel now t ≡ done t'
    → t'.clock_prev.tv_nsec ≡ t.clock_prev.tv_nsec
unfolding push_means
push_means-nsec zero now t t' e = absurd (cc e)
push_means-nsec (suc fuel) now t t' e =
    elim (Bool-cases (ltb nanosecond (timespec_sub now t.clock_prev))) [
      | inl behind ↦ push_means-nsec fuel now (push_mean t) t' (rw behind at e)
      | inr rest ↦
          let k : done t ≡ done t' = rw rest at e in
          ap (λ (x : HiResTimer). x.clock_prev.tv_nsec) (sym (done-inj t t' k))
    ]

-- Increment ends, also where it calls Start.
increment-done :
    (m : RateMonitor) (how_many : ℕ) (begin now : Timespec)
    → IsReading begin
    → IsReading now
    → m.clock_prev.tv_nsec < nanosecond
    → (m' : RateMonitor) × (increment m how_many begin now ≡ done m')
      × (m'.clock_prev.tv_nsec < nanosecond)
unfolding increment
increment-done m how_many begin now b r s = elim (Bool-cases (m.clock_prev.tv_sec == 0)) [
  | inl stopped ↦ rw stopped (pushed (start m begin) b.below_second)
  | inr running ↦ rw running (pushed m s)
]
  where
    added : RateMonitor → RateMonitor
    added m2 = record m2 { events_count = (m2.events_count + how_many) % 2 ^ 64 }

    pushed :
        (m1 : RateMonitor)
        → m1.clock_prev.tv_nsec < nanosecond
        → (m' : RateMonitor) × (((if ltb nanosecond (timespec_sub now m1.clock_prev)
                then push_seconds (suc now.tv_sec) now m1
                else done m1)
              >>= λ m2. done (record m2 { events_count = (m2.events_count + how_many) % 2 ^ 64 }))
            ≡ done m')
          × (m'.clock_prev.tv_nsec < nanosecond)
    pushed m1 s1 =
        let (m2, e, caught) = push_seconds-IsCaughtUp now.tv_sec now m1 r s1 (omega arith) in
        let kept = push_seconds-nsec (suc now.tv_sec) now m1 m2 e in
        elim (Bool-cases (ltb nanosecond (timespec_sub now m1.clock_prev))) [
          | inl behind ↦ (
            added m2,
            ap
                  (λ (x : Run RateMonitor).
                    (if ltb nanosecond (timespec_sub now m1.clock_prev) then x else done m1)
                    >>= λ u. done (added u))
                  e
                ∙ rw behind refl,
            omega (arith, kept),
          )
          | inr rest ↦ (added m1, rw rest refl, s1)
        ]

-- Start and Stop of a timer.
stop_timer-done :
    (t : HiResTimer) (first begin now : Timespec)
    → IsReading first
    → IsReading now
    → t.clock_prev.tv_nsec < nanosecond
    → (t' : HiResTimer) × (stop_timer (start_timer t first begin) now ≡ done t')
      × (t'.clock_prev.tv_nsec < nanosecond)
unfolding start_timer
stop_timer-done t first begin now f r s =
    let started = start_timer t first begin in
    let below : started.clock_prev.tv_nsec < nanosecond = set (t.clock_prev.tv_sec == 0) in
    let (t1, e, c) = push_means-IsUpToDate now.tv_sec now started r below (omega arith) in
    let kept = push_means-nsec (suc now.tv_sec) now started t1 e in
    (
      count_event now t1,
      stop_timer_once started now
          ∙ ap (λ (x : Run HiResTimer). x >>= λ u. done (count_event now u)) e,
      omega (arith, kept),
    )
  where
    set : (b : Bool) → (if b then first else t.clock_prev).tv_nsec < nanosecond
    set true = f.below_second
    set false = s

-- Without a request rate IncrementAndWait does not wait.
increment_and_wait_free :
    (rate : ReplayRate) (c : RateControl) (hit_time : ℕ) (clocks : Clocks)
    → c.mode ≡ event_based
    → c.events_per_second ≡ 0
    → increment_and_wait rate c 1 hit_time clocks
      ≡ (record c { events_count = (c.events_count + 1) % 2 ^ 64 }, went_on [] [])
unfolding increment_and_wait
increment_and_wait_free rate c hit_time clocks m n = rw (m, n) refl

module _ (boost : Boost) (rate : ReplayRate) (files : Files) (st : VCookieStore) (fuel : ℕ) where
  do_hit-done :
      (r : Round) (h : HitData) (source : HitSource) (w : WorkerState st.State) (s' : st.State)
      → AreReadings r
      → IsReady w
      → process_hit st w.store h ≡ done s'
      → (w' : WorkerState st.State) × (do_hit boost rate files st r h source w ≡ done w')
        × IsReady w'
        × (w'.store ≡ s')
        × (w'.source ≡ source)
  unfolding do_hit process_hit
  do_hit-done r h source w s' a ready e =
      let (m, e1, s1) =
        increment-done w.monitor 1 r.monitor_start r.monitor_now a.monitor_start a.monitor_now
          ready.monitor in
      let (c, e2, k2) =
        >>=-eq-done
          (construct (st.load_vcookie w.store) h.rsid h.visid_high h.visid_low h.visid_new) _ e in
      let (rt, e3, s3) =
        stop_timer-done w.read_timer r.read_first r.read_start r.read_stop a.read_first a.read_stop
          ready.read_timer in
      let ((s1', saved), e4, k4) = >>=-eq-done (st.save_vcookie w.store (update_cookie c h)) _ k2 in
      let (wt, e5, s5) =
        stop_timer-done w.write_timer r.write_first r.write_start r.write_stop a.write_first
          a.write_stop ready.write_timer in
      let free =
        increment_and_wait_free rate w.controller h.hit_time_gmt r.control ready.event_mode
          ready.no_rate in
      (
        record {
          source = source;
          store = s1';
          monitor = m;
          controller = record w.controller {
            events_count = (w.controller.events_count + 1) % 2 ^ 64;
          };
          read_timer = rt;
          write_timer = wt;
        },
        rw (e1, free, e2, e3, e4, e5) refl,
        record {
          monitor = s1;
          read_timer = s3;
          write_timer = s5;
          event_mode = ready.event_mode;
          no_rate = ready.no_rate;
        },
        done-inj s1' s' k4,
        refl,
      )

  along :
      (n : ℕ) (source : HitSource) (hits : List HitData)
      → Serves boost rate files st fuel n source hits
      → (rounds : List Round) (w : WorkerState st.State) (s' : st.State) → n ≡ length rounds
      → w.source ≡ source
      → All AreReadings rounds
      → IsReady w
      → process_hits st w.store hits ≡ done s'
      → (w' : WorkerState st.State) × (run_worker boost rate files st fuel rounds w ≡ done w')
        × (w'.store ≡ s')
  unfolding run_worker process_hits
  along _ _ _ (enough s) [] w s' k at_source a ready e = (w, refl, done-inj w.store s' e)
  along _ _ _ (enough s) (r ∷ rounds) w s' k at_source a ready e = absurd (omega arith)
  along _ _ _ (ended n s s2 m) [] w s' k at_source a ready e = absurd (omega arith)
  along _ _ _ (ended n s s2 m) (r ∷ rounds) w s' k at_source a ready e =
      (record w { source = s2 }, rw (at_source, m) refl, done-inj w.store s' e)
  along _ _ _ (serves n s s2 h hits m rest) [] w s' k at_source a ready e = absurd (omega arith)
  along _ _ _ (serves n s s2 h hits m rest) (r ∷ rounds) w s' k at_source (now, later) ready e =
      let (s1, one, all) = >>=-eq-done (process_hit st w.store h) _ e in
      let (w1, e1, ready1, stored, here) = do_hit-done r h s2 w s1 now ready one in
      let (w', ran, left) =
        along n s2 hits rest rounds w1 s' (omega arith) here later ready1 (rw stored all) in
      (w', rw (at_source, m, e1) ran, left)

  -- The loop of WorkerThread over rounds in which the clocks give valid readings, with no request rate, from a state in which
  -- the last reading that each of its three clocks keeps has less than a second of nanoseconds (that of a timer is never
  -- initialised in the program): where NextHit gives some hits one after the other, up to one for each round and fewer only if there is none then, and the store processes these, the
  -- loop ends, and leaves what they leave in the store.
  pub run_worker-done :
      (rounds : List Round) (w : WorkerState st.State) (hits : List HitData) (s' : st.State)
      → All AreReadings rounds
      → IsReady w
      → Serves boost rate files st fuel (length rounds) w.source hits
      → process_hits st w.store hits ≡ done s'
      → (w' : WorkerState st.State) × (run_worker boost rate files st fuel rounds w ≡ done w')
        × (w'.store ≡ s')
  run_worker-done rounds w hits s' a ready served e =
      along (length rounds) w.source hits served rounds w s' refl refl a ready e
