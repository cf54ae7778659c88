-- ===== src/Harness/Threads/Given.antt =====
-- The hits that a schedule of the threads gives, and to whom.
use elevator.Base.{
  ℕ, ◌≡◌, refl, subst, ap, Option, none, some, List, [], ◌∷◌, get_elem?, Option-cases, inl, inr,
  done,
}
use elevator.Base.Outcome.{>>=-eq-done, done-inj}
use elevator.Harness.Control.{ReplayRate}
use elevator.Harness.Hits.{HitData, Boost}
use elevator.Harness.Hits.Source.{
  HitSource, Files, NextHit, hit, no_hit, thrown, undefined, next_hit,
}
use elevator.Harness.Worker.Loop.{Round, WorkerState, do_hit}
use elevator.Harness.Worker.Finish.{finish_worker}
use elevator.Harness.Worker.Stored.{process_hits, do_hit-process_hit}
use elevator.Harness.Threads.{
  Phase, serving, finished, Thread, World, goes_to, after_hit, round, by_phase, turn, run_schedule,
}
use elevator.Harness.Threads.Shares.{store_in, nothing, ended, Shares, Continues, quiet, served}
use elevator.Store.{VCookieStore}

module _ (boost : Boost) (rate : ReplayRate) (files : Files) (st : VCookieStore) (fuel : ℕ) where
  stays : (w w1 : World st.State) → done w ≡ done w1 → Continues boost rate files st fuel w w1
  unfolding Continues
  stays w w1 e =
      subst (Continues boost rate files st fuel w) (done-inj w w1 e) (λ w' rest s. (rest, s))

  module _ (w w1 : World st.State) (i : ℕ) (th : Thread st.State)
      (here : get_elem? w.threads i ≡ some th) where
    after_hit-Continues :
        (r : Round) (rounds : List Round) (ws : WorkerState st.State) (source : HitSource)
        (n : NextHit)
        → th.phase ≡ serving (r ∷ rounds) ws
        → w.hits ≡ some source
        → next_hit boost fuel files source ≡ n
        → after_hit boost rate files st fuel w i th r rounds ws n ≡ done w1
        → Continues boost rate files st fuel w w1
    unfolding after_hit
    after_hit-Continues r rounds ws source (hit h s') p before next e =
        let (ws', e1, k1) = >>=-eq-done (do_hit boost rate files st r h s' ws) _ e in
        let (stored, same) = do_hit-process_hit boost rate files st fuel r h s' ws ws' e1 in
        let th1 = record th { phase = serving rounds ws' } in
        let w2 = goes_to (record w { hits = some s' }) i th (serving rounds ws') in
        subst (Continues boost rate files st fuel w) (done-inj w2 w1 k1) (
          served boost rate files st fuel w w2 i th th1 h source s' here refl before refl next
            (rw (ap store_in p) stored))
    after_hit-Continues r rounds ws source (no_hit s') p before next e =
        let w2 = goes_to (record w { hits = some s' }) i th (serving [] ws) in
        subst (Continues boost rate files st fuel w) (done-inj w2 w1 e) (
          quiet boost rate files st fuel w w2 i th (record th { phase = serving [] ws }) here refl
            (ap store_in p) (λ hits end g. rw before (ended source s' hits end next g)))
    after_hit-Continues r rounds ws source (thrown s') p before next e = absurd (cc e)
    after_hit-Continues r rounds ws source undefined p before next e = absurd (cc e)
    after_hit-Continues r rounds ws source NextHit.out_of_fuel p before next e = absurd (cc e)

    round-Continues :
        (r : Round) (rounds : List Round) (ws : WorkerState st.State) (hits : Option HitSource)
        → th.phase ≡ serving (r ∷ rounds) ws
        → w.hits ≡ hits
        → round boost rate files st fuel w i th r rounds ws hits ≡ done w1
        → Continues boost rate files st fuel w w1
    round-Continues r rounds ws none p before e =
        let w2 = goes_to w i th (serving rounds ws) in
        subst (Continues boost rate files st fuel w) (done-inj w2 w1 e) (
          quiet boost rate files st fuel w w2 i th (record th { phase = serving rounds ws }) here
            refl (ap store_in p) (λ hits end g. g))
    round-Continues r rounds ws (some source) p before e =
        after_hit-Continues r rounds ws source (next_hit boost fuel files source) p before refl e

    by_phase-Continues :
        (phase : Phase st.State)
        → th.phase ≡ phase
        → by_phase boost rate files st fuel w i th phase ≡ done w1
        → Continues boost rate files st fuel w w1
    unfolding by_phase
    by_phase-Continues (serving (r ∷ rounds) ws) p e = round-Continues r rounds ws w.hits p refl e
    by_phase-Continues (serving [] ws) p e =
        let ((totals, report), e1, k1) =
          >>=-eq-done (finish_worker th.last w.totals ws.monitor ws.read_timer ws.write_timer) _
            e in
        let w2 = goes_to (record w { totals = totals }) i th (finished ws.store report) in
        subst (Continues boost rate files st fuel w) (done-inj w2 w1 k1) (
          quiet boost rate files st fuel w w2 i th (record th { phase = finished ws.store report })
            here refl (ap store_in p) (λ hits end g. g))
    by_phase-Continues (finished s report) p e = stays w w1 e

  turn-Continues :
      (i : ℕ) (w w1 : World st.State)
      → turn boost rate files st fuel i w ≡ done w1
      → Continues boost rate files st fuel w w1
  unfolding turn
  turn-Continues i w w1 e = elim (Option-cases (get_elem? w.threads i)) [
    | inl nobody ↦ stays w w1 (rw nobody at e)
    | inr (th, here) ↦ by_phase-Continues w w1 i th here th.phase refl (rw here at e)
  ]

  -- A schedule that runs to its end: NextHit gives the hits one after the other, as to a single caller;
  -- each goes to one of the threads that there are; and each thread's store is what its hits, in that order, leave in it.
  pub run_schedule-Shares :
      (schedule : List ℕ) (w w' : World st.State)
      → run_schedule boost rate files st fuel schedule w ≡ done w'
      → (given : List (ℕ × HitData)) × Shares boost rate files st fuel w w' given
  unfolding run_schedule process_hits Continues
  run_schedule-Shares [] w w' e = (
    [],
    subst (λ x. Shares boost rate files st fuel w x []) (done-inj w w' e)
        (record {
          source = nothing w.hits;
          stored = λ k th at. (th, at, refl);
          to_threads = λ k h. refl;
        }),
  )
  run_schedule-Shares (i ∷ schedule) w w' e =
      let (w1, e1, k1) = >>=-eq-done (turn boost rate files st fuel i w) _ e in
      let (rest, s) = run_schedule-Shares schedule w1 w' k1 in turn-Continues i w w1 e1 w' rest s
