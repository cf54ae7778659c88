-- ===== src/Harness/Threads/Turns.antt =====
-- What a turn does to the thread whose turn it is, and to the totals.
use elevator.Base.{
  ℕ, zero, suc, ◌+◌, ◌≤◌, ◌<◌, ◌≡◌, refl, sym, subst, ◌∙◌, arith, Option, none, some, List, [], ◌∷◌,
  length, set, get_elem?, Option-cases, inl, inr, done,
}
use elevator.Base.Outcome.{>>=-eq-done, done-inj}
use elevator.Harness.Control.{ReplayRate}
use elevator.Harness.Hits.{Boost}
use elevator.Harness.Hits.Source.{
  HitSource, Files, NextHit, hit, no_hit, thrown, undefined, next_hit,
}
use elevator.Harness.Aggregate.{Measures, add_worker}
use elevator.Harness.Worker.Loop.{Round, WorkerState, do_hit}
use elevator.Harness.Worker.Finish.{finish_worker, finish_worker-add_worker}
use elevator.Harness.Threads.{
  Phase, serving, finished, Thread, World, goes_to, after_hit, round, by_phase, turn,
}
use elevator.Store.{VCookieStore}

-- The turns that a thread has to take: one for each round, and one to end.
abbrev pub turns_left : {S : Type 0} → Phase S → ℕ
turns_left (serving rounds ws) = suc (length rounds)
turns_left (finished s report) = 0

abbrev pub is_over : {S : Type 0} → Phase S → ℕ
is_over (serving rounds ws) = 0
is_over (finished s report) = 1

-- How many threads have ended.
abbrev pub count_over : {S : Type 0} → List (Thread S) → ℕ
count_over [] = 0
count_over (th ∷ threads) = is_over th.phase + count_over threads

pub count_over-set :
    {S : Type 0} (threads : List (Thread S)) (i : ℕ) (th th1 : Thread S)
    → get_elem? threads i ≡ some th
    → count_over (set threads i th1) + is_over th.phase ≡ count_over threads + is_over th1.phase
count_over-set [] i th th1 h = absurd (cc h)
count_over-set (u ∷ threads) zero th th1 h =
    let e : u ≡ th = cc h in
    subst
      (λ x.
        (is_over th1.phase + count_over threads) + is_over x.phase
        ≡ (is_over u.phase + count_over threads) + is_over th1.phase)
      e (omega arith)
count_over-set (u ∷ threads) (suc i) th th1 h = omega (arith, count_over-set threads i th th1 h)

-- What a turn of thread `i` comes to.
pub data Turned {S : Type 0} (i : ℕ) (w w1 : World S) : Type 0 where
  rested :
      w ≡ w1
      → ((th : Thread S) → get_elem? w.threads i ≡ some th → turns_left th.phase ≡ 0)
      → Turned i w w1
  moved :
      (th th1 : Thread S)
      → get_elem? w.threads i ≡ some th
      → w1.threads ≡ set w.threads i th1
      → turns_left th1.phase < turns_left th.phase
      → w1.totals ≡ w.totals
      → is_over th.phase ≡ is_over th1.phase
      → Turned i w w1
  over :
      (th th1 : Thread S) (m : Measures)
      → get_elem? w.threads i ≡ some th
      → w1.threads ≡ set w.threads i th1
      → turns_left th1.phase < turns_left th.phase
      → w1.totals ≡ add_worker w.totals m
      → is_over th.phase ≡ 0
      → is_over th1.phase ≡ 1
      → Turned i w w1

module _ (boost : Boost) (rate : ReplayRate) (files : Files) (st : VCookieStore) (fuel : ℕ) where
  module _ (w w1 : World st.State) (i : ℕ) (th : Thread st.State)
      (here : get_elem? w.threads i ≡ some th) where
    -- The thread goes on in its loop.
    goes_on :
        (r : Round) (rounds rounds1 : List Round) (ws ws1 : WorkerState st.State)
        (hits : Option HitSource)
        → th.phase ≡ serving (r ∷ rounds) ws
        → length rounds1 ≤ length rounds
        → done (goes_to (record w { hits = hits }) i th (serving rounds1 ws1)) ≡ done w1
        → Turned i w w1
    goes_on r rounds rounds1 ws ws1 hits p shorter e = subst (Turned i w) (done-inj _ w1 e) (
        moved th (record th { phase = serving rounds1 ws1 }) here refl (rw p (omega arith)) refl
          (rw p refl))

    after_hit-Turned :
        (r : Round) (rounds : List Round) (ws : WorkerState st.State) (n : NextHit)
        → th.phase ≡ serving (r ∷ rounds) ws
        → after_hit boost rate files st fuel w i th r rounds ws n ≡ done w1
        → Turned i w w1
    unfolding after_hit
    after_hit-Turned r rounds ws (hit h s') p e =
        let (ws', e1, k1) = >>=-eq-done (do_hit boost rate files st r h s' ws) _ e in
        goes_on r rounds rounds ws ws' (some s') p (omega arith) k1
    after_hit-Turned r rounds ws (no_hit s') p e =
        goes_on r rounds [] ws ws (some s') p (omega arith) e
    after_hit-Turned r rounds ws (thrown s') p e = absurd (cc e)
    after_hit-Turned r rounds ws undefined p e = absurd (cc e)
    after_hit-Turned r rounds ws NextHit.out_of_fuel p e = absurd (cc e)

    round-Turned :
        (r : Round) (rounds : List Round) (ws : WorkerState st.State) (hits : Option HitSource)
        → th.phase ≡ serving (r ∷ rounds) ws
        → round boost rate files st fuel w i th r rounds ws hits ≡ done w1
        → Turned i w w1
    round-Turned r rounds ws none p e = goes_on r rounds rounds ws ws w.hits p (omega arith) e
    round-Turned r rounds ws (some source) p e =
        after_hit-Turned r rounds ws (next_hit boost fuel files source) p e

    by_phase-Turned :
        (phase : Phase st.State)
        → th.phase ≡ phase
        → by_phase boost rate files st fuel w i th phase ≡ done w1
        → Turned i w w1
    unfolding by_phase
    by_phase-Turned (serving (r ∷ rounds) ws) p e = round-Turned r rounds ws w.hits p e
    by_phase-Turned (serving [] ws) p e =
        let ((totals, report), e1, k1) =
          >>=-eq-done (finish_worker th.last w.totals ws.monitor ws.read_timer ws.write_timer) _
            e in
        let (m, a) =
          finish_worker-add_worker th.last w.totals totals ws.monitor ws.read_timer ws.write_timer
            report e1 in
        subst (Turned i w) (done-inj _ w1 k1) (
          over th (record th { phase = finished ws.store report }) m here refl (rw p (omega arith))
            a.added (rw p refl) refl)
    by_phase-Turned (finished s report) p e = rested (done-inj w w1 e) (λ u at.
        let same : th ≡ u = cc (sym here ∙ at) in
        subst (λ x. turns_left x.phase ≡ 0) same (rw p refl))

  pub turn-Turned :
      (i : ℕ) (w w1 : World st.State) → turn boost rate files st fuel i w ≡ done w1 → Turned i w w1
  unfolding turn
  turn-Turned i w w1 e = elim (Option-cases (get_elem? w.threads i)) [
    | inl nobody ↦ rested (done-inj w w1 (rw nobody at e)) (λ u at. absurd (cc (sym nobody ∙ at)))
    | inr (th, here) ↦ by_phase-Turned w w1 i th here th.phase refl (rw here at e)
  ]
