-- ===== src/Harness/Aggregate/Growth.antt =====
-- The loops over NsPerSecond (), whenever they end (testharness.cpp).
use elevator.Base.{
  ℕ, zero, suc, ◌+◌, ◌-◌, ◌*◌, ◌/◌, ◌≤◌, ◌<◌, ◌≡◌, refl, sym, subst, ap, ◌∙◌, arith, List, [], ◌∷◌,
  ◌++◌, length, get_or, ltb, ltb→lt, ltb_false→le, Bool-cases, inl, inr, if◌then◌else◌, Run, done,
  length-append, get_or-append_left, true, false,
}
use elevator.Base.Outcome.{◌>>=◌, >>=-eq-done, done-inj}
use elevator.Harness.{Timespec, timespec_sub, nanosecond}
use elevator.Harness.Timer.{HiResTimer, mean, push_mean, push_means, push_rest, read_timer}
use elevator.Harness.Aggregate.{add_times}
use elevator.Harness.Aggregate.Calls.{add_at, add_calls}
use elevator.Harness.Aggregate.Idle.{add_each, add_each-add_times}
use native.Mathlib.Numerals.{add-one}

-- The list has grown at its end, if at all.
pub record IsPrefix (xs ys : List ℕ) : Type 0 where
  pub shorter : length xs ≤ length ys
  pub same : (i : ℕ) → i < length xs → get_or ys i 0 ≡ get_or xs i 0

pub IsPrefix-refl : (xs : List ℕ) → IsPrefix xs xs
IsPrefix-refl xs = record { shorter = omega arith; same = λ i h. refl }

pub IsPrefix-trans : {xs ys zs : List ℕ} → IsPrefix xs ys → IsPrefix ys zs → IsPrefix xs zs
IsPrefix-trans p q = record {
  shorter = omega (arith, p.shorter, q.shorter);
  same = λ i h. q.same i (omega (arith, p.shorter)) ∙ p.same i h;
}

IsPrefix-append : (xs ys : List ℕ) → IsPrefix xs (xs ++ ys)
IsPrefix-append xs ys = record {
  shorter = omega (arith, length-append xs ys);
  same = λ i h. get_or-append_left xs ys i 0 h;
}

push_means-IsPrefix :
    (fuel : ℕ) (now : Timespec) (t t' : HiResTimer)
    → push_means fuel now t ≡ done t'
    → IsPrefix t.ns_per_second t'.ns_per_second
unfolding push_means
push_means-IsPrefix zero now t t' e = absurd (cc e)
push_means-IsPrefix (suc fuel) now t t' e =
    elim (Bool-cases (ltb nanosecond (timespec_sub now t.clock_prev))) [
      | inl more ↦
          let e' : push_means fuel now (push_mean t) ≡ done t' = rw more at e in
          IsPrefix-trans (IsPrefix-append t.ns_per_second (mean t.ns t.events_count ∷ []))
            (push_means-IsPrefix fuel now (push_mean t) t' e')
      | inr over ↦
          let e' : done t ≡ done t' = rw over at e in
          subst (λ (u : HiResTimer). IsPrefix t.ns_per_second u.ns_per_second) (done-inj t t' e')
            (IsPrefix-refl _)
    ]

push_rest-IsPrefix : (t : HiResTimer) → IsPrefix t.ns_per_second (push_rest t).ns_per_second
push_rest-IsPrefix t = elim (Bool-cases (ltb 0 t.events_count)) [
  | inl some_events ↦ rw some_events (IsPrefix-append t.ns_per_second (t.ns / t.events_count ∷ []))
  | inr none_counted ↦ rw none_counted (IsPrefix-refl _)
]

pub read_timer-IsPrefix :
    (now : Timespec) (t t' : HiResTimer)
    → read_timer t now ≡ done t'
    → IsPrefix t.ns_per_second t'.ns_per_second
unfolding read_timer
read_timer-IsPrefix now t t' e =
    let (u, pushed, rest) = >>=-eq-done (push_means (suc now.tv_sec) now t) _ e in
    IsPrefix-trans (push_means-IsPrefix (suc now.tv_sec) now t u pushed) (
      subst (λ (x : HiResTimer). IsPrefix u.ns_per_second x.ns_per_second)
        (done-inj (push_rest u) t' rest) (push_rest-IsPrefix u))

-- What the loop comes to, from the index `i` on.
pub record IsSummed (rates : List ℕ) (t : HiResTimer) (i : ℕ) (sums : List ℕ)
    (r : List ℕ × HiResTimer) : Type 0 where
  pub grown : IsPrefix t.ns_per_second r.1.ns_per_second
  pub within : i ≤ length r.1.ns_per_second
  pub summed : r.0 ≡ add_each rates r.1.ns_per_second i (length r.1.ns_per_second - i) sums

stopped :
    (rates : List ℕ) (t t' : HiResTimer) (i : ℕ) (sums : List ℕ) (r : List ℕ × HiResTimer)
    → IsPrefix t.ns_per_second t'.ns_per_second
    → i ≤ length t.ns_per_second
    → ltb i (length t'.ns_per_second) ≡ false
    → done (sums, t') ≡ done r
    → IsSummed rates t i sums r
unfolding add_each
stopped rates t t' i sums r p h stop e =
    subst (λ x. IsSummed rates t i sums x) (done-inj (sums, t') r e)
      (record {
        grown = p;
        within = omega (arith, p.shorter);
        summed =
            let none_left : length t'.ns_per_second - i ≡ 0 =
              omega (arith, ltb_false→le i (length t'.ns_per_second) stop) in
            rw none_left refl;
      })

went_on :
    (rates : List ℕ) (t t' : HiResTimer) (i : ℕ) (sums added : List ℕ) (r : List ℕ × HiResTimer)
    → IsPrefix t.ns_per_second t'.ns_per_second
    → i < length t'.ns_per_second
    → (if ltb i (length rates)
        then add_at sums i (get_or rates i 0 * get_or t'.ns_per_second i 0)
        else sums)
      ≡ added
    → IsSummed rates t' (suc i) added r
    → IsSummed rates t i sums r
unfolding add_each
went_on rates t t' i sums added r p h a s = record {
  grown = IsPrefix-trans p s.grown;
  within = omega (arith, s.within);
  summed =
      let left : length r.1.ns_per_second - i ≡ suc (length r.1.ns_per_second - suc i) =
        omega (arith, s.within) in
      let a' =
        subst
          (λ n.
            (if ltb i (length rates) then add_at sums i (get_or rates i 0 * n) else sums) ≡ added)
          (sym (s.grown.same i h)) a in
      s.summed
      ∙ rw left (
          ap (add_each rates r.1.ns_per_second (suc i) (length r.1.ns_per_second - suc i))
            (sym a'));
}

added_on :
    (rates : List ℕ) (t t' : HiResTimer) (i : ℕ) (sums : List ℕ) (r : List ℕ × HiResTimer)
    → IsPrefix t.ns_per_second t'.ns_per_second
    → i < length t'.ns_per_second
    → ltb i (length rates) ≡ true
    → IsSummed rates t' (i + 1) (add_at sums i (get_or rates i 0 * get_or t'.ns_per_second i 0)) r
    → IsSummed rates t i sums r
added_on rates t t' i sums r p h rated s =
    went_on rates t t' i sums (add_at sums i (get_or rates i 0 * get_or t'.ns_per_second i 0)) r p h
      (rw rated refl) (rw (← add-one i) s)

passed_on :
    (rates : List ℕ) (t t' : HiResTimer) (i : ℕ) (sums : List ℕ) (r : List ℕ × HiResTimer)
    → IsPrefix t.ns_per_second t'.ns_per_second
    → i < length t'.ns_per_second
    → ltb i (length rates) ≡ false
    → IsSummed rates t' (i + 1) sums r
    → IsSummed rates t i sums r
passed_on rates t t' i sums r p h unrated s =
    went_on rates t t' i sums sums r p h (rw unrated refl) (rw (← add-one i) s)

add_calls-IsSummed :
    (rates : List ℕ) (t : HiResTimer) (i : ℕ) (sums : List ℕ) (readings : List Timespec)
    (r : List ℕ × HiResTimer)
    → i ≤ length t.ns_per_second
    → add_calls rates t i sums readings ≡ done r
    → IsSummed rates t i sums r
unfolding add_calls
add_calls-IsSummed rates t i sums [] r h e = absurd (cc e)
add_calls-IsSummed rates t i sums (now ∷ []) r h e =
    let (t', read, rest) = >>=-eq-done (read_timer t now) _ e in
    let p = read_timer-IsPrefix now t t' read in
    elim (Bool-cases (ltb i (length t'.ns_per_second))) [
      | inl more ↦ let k : Run.out_of_fuel ≡ done r = rw more at rest in absurd (cc k)
      | inr over ↦ stopped rates t t' i sums r p h over (rw over at rest)
    ]
add_calls-IsSummed rates t i sums (now ∷ again ∷ readings) r h e =
    let (t', read, rest) = >>=-eq-done (read_timer t now) _ e in
    let p = read_timer-IsPrefix now t t' read in
    elim (Bool-cases (ltb i (length t'.ns_per_second))) [
      | inl more ↦ elim (Bool-cases (ltb i (length rates))) [
        | inl rated ↦
            let k : (read_timer t' again >>= λ t''.
            add_calls rates t'' (i + 1)
              (add_at sums i (get_or rates i 0 * get_or t''.ns_per_second i 0)) readings)
                ≡ done r =
              rw (more, rated) at rest in
            let (t'', read2, rest2) = >>=-eq-done (read_timer t' again) _ k in
            let p2 = read_timer-IsPrefix again t' t'' read2 in
            let below : i < length t''.ns_per_second =
              omega (arith, ltb→lt i (length t'.ns_per_second) more, p2.shorter) in
            added_on rates t t'' i sums r (IsPrefix-trans p p2) below rated
              (add_calls-IsSummed rates t'' (i + 1) _ readings r (omega (arith, below)) rest2)
        | inr unrated ↦
            let below = ltb→lt i (length t'.ns_per_second) more in
            let k : add_calls rates t' (i + 1) sums (again ∷ readings) ≡ done r =
              rw (more, unrated) at rest in
            passed_on rates t t' i sums r p below unrated (
              add_calls-IsSummed rates t' (i + 1) sums (again ∷ readings) r (omega (arith, below))
                k)
      ]
      | inr over ↦ stopped rates t t' i sums r p h over (rw over at rest)
    ]

-- Whenever the loop over NsPerSecond ends, however often the timer grew in it: it has kept the means
-- that the timer had, and has added to the totals what the means it ends with give.
pub add_calls-done :
    (rates : List ℕ) (t : HiResTimer) (sums : List ℕ) (readings : List Timespec) (sums' : List ℕ)
    (t' : HiResTimer)
    → add_calls rates t 0 sums readings ≡ done (sums', t')
    → IsPrefix t.ns_per_second t'.ns_per_second × (sums' ≡ add_times sums rates t'.ns_per_second)
add_calls-done rates t sums readings sums' t' e =
    let s = add_calls-IsSummed rates t 0 sums readings (sums', t') (omega arith) e in
    let all : length t'.ns_per_second - 0 ≡ length t'.ns_per_second = omega arith in
    (s.grown, (rw all at s.summed) ∙ add_each-add_times sums rates t'.ns_per_second)
