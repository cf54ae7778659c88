-- ===== src/Harness/Worker/Stored.antt =====
-- What a worker stores, and its measurements.
use elevator.Base.{ℕ, suc, ◌≡◌, refl, sym, subst, ap, List, [], ◌∷◌, length, Run, done, fault}
use elevator.Base.Outcome.{◌>>=◌, >>=-eq-done}
use elevator.Cookie.{construct}
use elevator.Harness.Monitor.{increment}
use elevator.Harness.Timer.{start_timer, stop_timer}
use elevator.Harness.Control.{increment_and_wait, ReplayRate, Waited, went_on, waits}
use elevator.Harness.Hits.{HitData, Boost}
use elevator.Harness.Hits.Source.{
  HitSource, Files, NextHit, hit, no_hit, thrown, undefined, next_hit,
}
use elevator.Harness.Worker.{update_cookie, process_hit}
use elevator.Harness.Worker.Loop.{Round, WorkerState, over, do_hit, after_next_hit, run_worker}
use elevator.Store.{VCookieStore}

-- The hits one after the other, with nothing measured.
unfoldable pub process_hits : (st : VCookieStore) → st.State → List HitData → Run st.State
process_hits st s [] = done s
process_hits st s (h ∷ hits) = do s' ← process_hit st s h; process_hits st s' hits

over-eq-done :
    {A : Type 0} (waited : Waited (Unit {0})) (k : Run A) {a : A}
    → over waited k ≡ done a
    → k ≡ done a
over-eq-done (went_on sleeps rest) k h = h
over-eq-done (waits sleeps) k h = cc

module _ (boost : Boost) (rate : ReplayRate) (files : Files) (st : VCookieStore) (fuel : ℕ) where
  -- The hits that NextHit gives one after the other, at most `n`; fewer only if there is none then.
  pub data Serves : ℕ → HitSource → List HitData → Type 0 where
    enough : (s : HitSource) → Serves 0 s []
    ended :
        (n : ℕ) (s s' : HitSource) → next_hit boost fuel files s ≡ no_hit s' → Serves (suc n) s []
    serves :
        (n : ℕ) (s s' : HitSource) (h : HitData) (hits : List HitData)
        → next_hit boost fuel files s ≡ hit h s'
        → Serves n s' hits
        → Serves (suc n) s (h ∷ hits)

  abbrev stored : Run (WorkerState st.State) → Run st.State
  stored m = m >>= λ w. done w.store

  abbrev source_of : HitSource → Run (WorkerState st.State) → HitSource
  source_of s (done w) = w.source
  source_of s fault = s
  source_of s Run.out_of_fuel = s

  pub do_hit-process_hit :
      (r : Round) (h : HitData) (source : HitSource) (w w' : WorkerState st.State)
      → do_hit boost rate files st r h source w ≡ done w'
      → (process_hit st w.store h ≡ done w'.store) × (w'.source ≡ source)
  unfolding do_hit process_hit
  do_hit-process_hit r h source w w' e =
      let (m, e1, k1) = >>=-eq-done (increment w.monitor 1 r.monitor_start r.monitor_now) _ e in
      let loading =
        construct (st.load_vcookie w.store) h.rsid h.visid_high h.visid_low h.visid_new in
      let waited = (increment_and_wait rate w.controller 1 h.hit_time_gmt r.control).1 in
      let (c, e2, k2) = >>=-eq-done (over waited loading) _ k1 in
      let (rt, e3, k3) =
        >>=-eq-done (stop_timer (start_timer w.read_timer r.read_first r.read_start) r.read_stop) _
          k2 in
      let (saved, e4, k4) = >>=-eq-done (st.save_vcookie w.store (update_cookie c h)) _ k3 in
      let (wt, e5, k5) =
        >>=-eq-done
          (stop_timer (start_timer w.write_timer r.write_first r.write_start) r.write_stop) _ k4 in
      let loaded : loading ≡ done c = over-eq-done waited loading e2 in
      (
        rw loaded (rw e4 (ap (λ (x : Run (WorkerState st.State)). stored x) k5)),
        ap (λ (x : Run (WorkerState st.State)). source_of w'.source x) (sym k5),
      )

  -- A run of WorkerThread's loop, if it ends: what it leaves in the store is what the hits that
  -- NextHit gives, up to one for each request, leave there one after the other, whatever is measured
  -- and however long it waits.
  pub run_worker-process_hits :
      (rounds : List Round) (w w' : WorkerState st.State)
      → run_worker boost rate files st fuel rounds w ≡ done w'
      → (hits : List HitData) × Serves (length rounds) w.source hits
        × (process_hits st w.store hits ≡ done w'.store)
  unfolding run_worker process_hits
  run_worker-process_hits [] w w' e =
      ([], enough w.source, ap (λ (x : Run (WorkerState st.State)). stored x) e)
  run_worker-process_hits (r ∷ rounds) w w' e =
      by_hit (next_hit boost fuel files w.source) refl (λ w1. run_worker-process_hits rounds w1 w')
        e
    where
      by_hit :
          (n : NextHit)
          → next_hit boost fuel files w.source ≡ n
          → ((w1 : WorkerState st.State)
              → run_worker boost rate files st fuel rounds w1 ≡ done w'
              → (hits : List HitData) × Serves (length rounds) w1.source hits
                × (process_hits st w1.store hits ≡ done w'.store))
          → after_next_hit boost rate files st r n w (run_worker boost rate files st fuel rounds)
            ≡ done w'
          → (hits : List HitData) × Serves (suc (length rounds)) w.source hits
            × (process_hits st w.store hits ≡ done w'.store)
      by_hit (hit h s') m rest e =
          let (w1, e1, k1) = >>=-eq-done (do_hit boost rate files st r h s' w) _ e in
          let (stored1, source1) = do_hit-process_hit r h s' w w1 e1 in
          let (hits, served, all) = rest w1 k1 in
          (
            h ∷ hits,
            serves _ _ s' h hits m
                (subst (λ (u : HitSource). Serves (length rounds) u hits) source1 served),
            rw stored1 all,
          )
      by_hit (no_hit s') m rest e =
          ([], ended _ _ s' m, ap (λ (x : Run (WorkerState st.State)). stored x) e)
      by_hit (thrown s') m rest e = absurd (cc e)
      by_hit undefined m rest e = absurd (cc e)
      by_hit NextHit.out_of_fuel m rest e = absurd (cc e)
