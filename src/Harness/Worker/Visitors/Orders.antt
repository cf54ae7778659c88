-- ===== src/Harness/Worker/Visitors/Orders.antt =====
-- The order of the hits of different visitors does not matter (WorkerThread of testharness.cpp, over a
-- store that keeps the visitors apart).
use mathlib.Core.Quot
use mathlib.Core.Quot.{Quot}
use elevator.Base.{
  ◌≡◌, refl, ap, sym, subst, ◌∙◌, true, List, [], ◌∷◌, Bool-cases, inl, inr, All, ==-refl, done,
}
use elevator.Base.Outcome.{>>=-eq-done, done-inj}
use elevator.Harness.Hits.{HitData}
use elevator.Harness.Worker.{process_hit}
use elevator.Harness.Worker.Stored.{process_hits}
use elevator.Store.{VCookieStore}
use elevator.Store.Contract.{as_visitor, Visitor, Agree, KeepsApart}
use elevator.Harness.Worker.Visitors.{
  visitor_of, is_of, hits_of, is_of-eq, is_of-ne, process_hit_own, process_hit_other,
  process_hit-IsSound, process_hits-hits_of,
}

module _ (st : VCookieStore) (IsServed : Visitor → Type 0) (IsSound : st.State → Type 0)
    (apart : KeepsApart st IsServed IsSound) where
  -- What is left of a run of a visitor's hits, in a store that loads the same for the visitor.
  abbrev Runs : Visitor → st.State → List HitData → Type 0
  Runs v s hits =
      (t : st.State) × (t' : st.State) × Agree st IsServed IsSound v s t
      × (process_hits st t (hits_of v hits) ≡ done t')

  Runs-step :
      (v : Visitor) (s s1 : st.State) (hit : HitData) (hits : List HitData)
      → IsServed v
      → IsServed (visitor_of hit)
      → IsSound s
      → process_hit st s hit ≡ done s1
      → Runs v s (hit ∷ hits)
      → Runs v s1 hits
  unfolding process_hits
  Runs-step v s s1 hit hits p q h one (t, t', a, all) = elim (Bool-cases (is_of v hit)) [
    | inr other ↦
        let agree =
          process_hit_other st IsServed IsSound apart v s s1 hit p q (is_of-ne v hit other) h one in
        (t, t', λ d. agree d ∙ a d, rw other at all)
    | inl own ↦
        let same = is_of-eq v hit own in
        let (t1, two, agree) =
          process_hit_own st IsServed IsSound apart s t s1 hit
            (subst (λ u. Agree st IsServed IsSound u s t) (sym same) a) one in
        let (t2, two', rest) = >>=-eq-done (process_hit st t hit) _ (rw own at all) in
        let here : t2 ≡ t1 = done-inj t2 t1 (sym two' ∙ two) in
        (
          t1,
          t',
          subst (λ u. Agree st IsServed IsSound u s1 t1) same agree,
          subst (λ x. process_hits st x (hits_of v hits) ≡ done t') here rest,
        )
  ]

  -- Where the hits of each visitor run alone, they run together.
  process_hits-Runs :
      (hits : List HitData) (s : st.State)
      → All (λ hit. IsServed (visitor_of hit)) hits
      → IsSound s
      → ((v : Visitor) → IsServed v → Runs v s hits)
      → (s' : st.State) × (process_hits st s hits ≡ done s')
  unfolding process_hits
  process_hits-Runs [] s q h runs = (s, refl)
  process_hits-Runs (hit ∷ hits) s (q, qs) h runs =
      let (t, t', a, all) = runs (visitor_of hit) q in
      let mine : is_of (visitor_of hit) hit ≡ true = simp ==-refl in
      let (t1, one, rest) = >>=-eq-done (process_hit st t hit) _ (rw mine at all) in
      let (s1, two, agree) =
        process_hit_own st IsServed IsSound apart t s t1 hit (λ d. sym (a d)) one in
      let (s', more) =
        process_hits-Runs hits s1 qs
          (process_hit-IsSound st IsServed IsSound apart s s1 hit q h two)
          (λ v p. Runs-step v s s1 hit hits p q h two (runs v p)) in
      (s', rw two more)

  -- A state of the store, seen only through what is loaded for the visitors that are served.
  abbrev pub Records : Type 0
  Records = Quot (λ (s t : st.State). (v : Visitor) → IsServed v → Agree st IsServed IsSound v s t)

  -- On a store that keeps visitors apart, in a sound state: where hits of visitors that are served are processed
  -- one after the other, any other such hits that have, for each visitor, the same hits in the same order are processed too,
  -- and leave the same records.
  pub process_hits_reordered :
      (hits hits' : List HitData) (s s1 : st.State)
      → All (λ hit. IsServed (visitor_of hit)) hits
      → All (λ hit. IsServed (visitor_of hit)) hits'
      → IsSound s
      → ((v : Visitor) → IsServed v → hits_of v hits ≡ hits_of v hits')
      → process_hits st s hits ≡ done s1
      → (s2 : st.State) × (process_hits st s hits' ≡ done s2)
        × ◌≡◌ {A = Records} (Quot.mk s1) (Quot.mk s2)
  process_hits_reordered hits hits' s s1 q q' h same e =
      let alone = λ (v : Visitor) (p : IsServed v).
        process_hits-hits_of st IsServed IsSound apart v hits s s s1 p q h (λ d. refl) e in
      let (s2, e') =
        process_hits-Runs hits' s q' h
          (λ v p. let (t', run, agree) = alone v p in (s, t', λ d. refl, rw (same v p) at run)) in
      (
        s2,
        e',
        Quot.sound (λ v p d.
            let (t', run, agree) = alone v p in
            let (u', run', agree') =
              process_hits-hits_of st IsServed IsSound apart v hits' s s s2 p q' h (λ d. refl) e' in
            let here : t' ≡ u' =
              done-inj t' u' (sym run ∙ ap (process_hits st s) (same v p) ∙ run') in
            agree d ∙ ap (λ x. st.load_vcookie x (as_visitor v d)) here ∙ sym (agree' d)),
      )
