-- ===== src/Harness/Threads/Ends.antt =====
-- When the threads end, and what the totals are then.
use elevator.Base.{
  ℕ, suc, ◌+◌, ◌-◌, ◌≤◌, ◌<◌, ◌≡◌, refl, sym, subst, ap, ◌∙◌, arith, some, List, [], ◌∷◌, length,
  length-set, set, get_elem?, get_elem?-set_self, get_elem?-set_ne, ◌==◌, ==_iff, ==_false→ne,
  if◌then◌else◌, Bool-cases, inl, inr, done,
}
use elevator.Base.Outcome.{>>=-eq-done, done-inj}
use elevator.Harness.Control.{ReplayRate}
use elevator.Harness.Hits.{Boost}
use elevator.Harness.Hits.Source.{Files}
use elevator.Harness.Aggregate.{Measures, add_workers}
use elevator.Harness.Threads.{Phase, serving, finished, Thread, World, turn, run_schedule}
use elevator.Harness.Threads.Turns.{
  turns_left, is_over, count_over, count_over-set, Turned, rested, moved, over, turn-Turned,
}
use elevator.Store.{VCookieStore}

-- How many turns of a schedule are those of thread `k`.
abbrev pub turns_of : ℕ → List ℕ → ℕ
turns_of k [] = 0
turns_of k (i ∷ schedule) = if i == k then suc (turns_of k schedule) else turns_of k schedule

no_turns_left : {S : Type 0} (phase : Phase S) → turns_left phase ≡ 0 → is_over phase ≡ 1
no_turns_left (serving rounds ws) h = absurd (omega arith)
no_turns_left (finished s report) h = refl

-- The measures that were added between two worlds, one for each thread that has ended.
pub record IsMeasured {S : Type 0} (w w' : World S) (measures : List Measures) : Type 0 where
  pub totals : w'.totals ≡ add_workers w.totals measures
  pub each : length measures + count_over w.threads ≡ count_over w'.threads

-- The turns that thread `k` still has to take are fewer by those that it took.
abbrev pub Advances : {S : Type 0} → World S → World S → ℕ → ℕ → Type 0
Advances {S} w w' k taken =
    (th : Thread S)
    → get_elem? w.threads k ≡ some th
    → (th' : Thread S) × (get_elem? w'.threads k ≡ some th')
      × (turns_left th'.phase ≤ turns_left th.phase - taken)

changed :
    {S : Type 0} (w w1 w' : World S) (i k taken : ℕ) (th th1 : Thread S)
    → get_elem? w.threads i ≡ some th
    → w1.threads ≡ set w.threads i th1
    → turns_left th1.phase < turns_left th.phase
    → Advances w1 w' k taken
    → Advances w w' k (if i == k then suc taken else taken)
changed {S} w w1 w' i k taken th th1 here at less later = elim (Bool-cases (i == k)) [
  | inl own ↦ λ u found.
      let same : i ≡ k = (==_iff i k).0 own in
      let here' : get_elem? w.threads k ≡ some th =
        subst (λ j. get_elem? w.threads j ≡ some th) same here in
      let e : th ≡ u = cc (sym here' ∙ found) in
      let (th', found', fewer) = later th1 (
        ap (λ l. get_elem? l k) at
        ∙ subst (λ j. get_elem? (set w.threads j th1) k ≡ some th1) (sym same)
            (get_elem?-set_self w.threads k th th1 here')) in
      (
        th',
        found',
        subst
            (λ (x : Thread S).
              turns_left th'.phase ≤ turns_left x.phase - (if i == k then suc taken else taken))
            e (rw own (omega (arith, less, fewer))),
      )
  | inr other ↦ λ u found.
      let (th', found', fewer) = later u (
        ap (λ l. get_elem? l k) at
        ∙ get_elem?-set_ne w.threads i k th1 (==_false→ne i k other)
        ∙ found) in
      (th', found', rw other fewer)
]

turned-Advances :
    {S : Type 0} (w w1 w' : World S) (i k taken : ℕ)
    → Turned i w w1
    → Advances w1 w' k taken
    → Advances w w' k (if i == k then suc taken else taken)
turned-Advances w w1 w' i k taken (moved th th1 here at less t o) later u found =
    changed w w1 w' i k taken th th1 here at less later u found
turned-Advances w w1 w' i k taken (over th th1 m here at less t o o') later u found =
    changed w w1 w' i k taken th th1 here at less later u found
turned-Advances w w1 w' i k taken (rested same none_left) later u found =
    let (th', found', fewer) = later u (subst (λ x. get_elem? x.threads k ≡ some u) same found) in
    elim (Bool-cases (i == k)) [
      | inl own ↦
          let none : turns_left u.phase ≡ 0 =
            none_left u
              (subst (λ j. get_elem? w.threads j ≡ some u) (sym ((==_iff i k).0 own)) found) in
          (th', found', rw own (omega (arith, fewer, none)))
      | inr other ↦ (th', found', rw other fewer)
    ]

turned-IsMeasured :
    {S : Type 0} (w w1 w' : World S) (i : ℕ) (measures : List Measures)
    → Turned i w w1
    → IsMeasured w1 w' measures
    → (more : List Measures) × IsMeasured w w' more
unfolding add_workers
turned-IsMeasured w w1 w' i measures (rested same none_left) s = (measures, rw same s)
turned-IsMeasured w w1 w' i measures (moved th th1 here at less t o) s =
    let n = count_over-set w.threads i th th1 here in
    let c : count_over w1.threads ≡ count_over (set w.threads i th1) = ap count_over at in
    (
      measures,
      record {
        totals = s.totals ∙ ap (λ x. add_workers x measures) t;
        each = omega (arith, s.each, n, c, o);
      },
    )
turned-IsMeasured w w1 w' i measures (over th th1 m here at less t o o') s =
    let n = count_over-set w.threads i th th1 here in
    let c : count_over w1.threads ≡ count_over (set w.threads i th1) = ap count_over at in
    (
      m ∷ measures,
      record {
        totals = s.totals ∙ ap (λ x. add_workers x measures) t;
        each = omega (arith, s.each, n, c, o, o');
      },
    )

turned-length :
    {S : Type 0} (w w1 : World S) (i : ℕ) → Turned i w w1 → length w1.threads ≡ length w.threads
turned-length w w1 i (rested same none_left) = ap (λ x. length x.threads) (sym same)
turned-length w w1 i (moved th th1 here at less t o) = ap length at ∙ length-set w.threads i th1
turned-length w w1 i (over th th1 m here at less t o o') = ap length at ∙ length-set w.threads i th1

module _ (boost : Boost) (rate : ReplayRate) (files : Files) (st : VCookieStore) (fuel : ℕ) where
  -- When a schedule has run, the totals are the old ones with one set of measures added for each thread
  -- that has ended in it.
  pub run_schedule-add_workers :
      (schedule : List ℕ) (w w' : World st.State)
      → run_schedule boost rate files st fuel schedule w ≡ done w'
      → (measures : List Measures) × IsMeasured w w' measures
  unfolding run_schedule add_workers
  run_schedule-add_workers [] w w' e = (
    [],
    subst (λ x. IsMeasured w x []) (done-inj w w' e) (record { totals = refl; each = omega arith }),
  )
  run_schedule-add_workers (i ∷ schedule) w w' e =
      let (w1, e1, k1) = >>=-eq-done (turn boost rate files st fuel i w) _ e in
      let (measures, s) = run_schedule-add_workers schedule w1 w' k1 in
      turned-IsMeasured w w1 w' i measures (turn-Turned boost rate files st fuel i w w1 e1) s

  run_schedule-Advances :
      (schedule : List ℕ) (w w' : World st.State)
      → run_schedule boost rate files st fuel schedule w ≡ done w'
      → (k : ℕ) → Advances w w' k (turns_of k schedule)
  unfolding run_schedule
  run_schedule-Advances [] w w' e k th found =
      (th, subst (λ x. get_elem? x.threads k ≡ some th) (done-inj w w' e) found, omega arith)
  run_schedule-Advances (i ∷ schedule) w w' e k th found =
      let (w1, e1, k1) = >>=-eq-done (turn boost rate files st fuel i w) _ e in
      turned-Advances w w1 w' i k (turns_of k schedule)
        (turn-Turned boost rate files st fuel i w w1 e1) (run_schedule-Advances schedule w1 w' k1 k)
        th found

  -- A thread takes no more turns than it has rounds left, and one to end: a schedule that runs and gives
  -- it so many leaves it ended, whatever the other threads do.
  pub run_schedule-is_over :
      (schedule : List ℕ) (w w' : World st.State) (k : ℕ) (th : Thread st.State)
      → run_schedule boost rate files st fuel schedule w ≡ done w'
      → get_elem? w.threads k ≡ some th
      → turns_left th.phase ≤ turns_of k schedule
      → (th' : Thread st.State) × (get_elem? w'.threads k ≡ some th') × (is_over th'.phase ≡ 1)
  run_schedule-is_over schedule w w' k th e found enough =
      let (th', found', fewer) = run_schedule-Advances schedule w w' e k th found in
      (th', found', no_turns_left th'.phase (omega (arith, fewer, enough)))

  pub length-run_schedule :
      (schedule : List ℕ) (w w' : World st.State)
      → run_schedule boost rate files st fuel schedule w ≡ done w'
      → length w'.threads ≡ length w.threads
  unfolding run_schedule
  length-run_schedule [] w w' e = ap (λ x. length x.threads) (sym (done-inj w w' e))
  length-run_schedule (i ∷ schedule) w w' e =
      let (w1, e1, k1) = >>=-eq-done (turn boost rate files st fuel i w) _ e in
      length-run_schedule schedule w1 w' k1
      ∙ turned-length w w1 i (turn-Turned boost rate files st fuel i w w1 e1)
