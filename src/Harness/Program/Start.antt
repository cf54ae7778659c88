-- ===== src/Harness/Program/Start.antt =====
-- The threads that main of the test harness creates (testharness.cpp), and their joins.
use elevator.Base.{
  ℕ, zero, suc, ◌≡◌, refl, subst, ap, arith, some, List, [], ◌∷◌, length, get_elem?,
}
use elevator.Harness.Configure.{Options}
use elevator.Harness.Threads.{Phase, serving, finished, Thread}
use elevator.Harness.Threads.Turns.{turns_left, is_over, count_over}
use elevator.Harness.Program.{
  ThreadClocks, rounds_from, new_thread, create_threads, Joined, joined, join_one, join_threads,
}

-- Every thread has ended.
abbrev pub AllOver : {S : Type 0} → List (Thread S) → Type 0
AllOver {S} threads = (k : ℕ) (th : Thread S) → get_elem? threads k ≡ some th → is_over th.phase ≡ 1

join_one_over :
    {S : Type 0} (phase : Phase S) (rest : Joined)
    → is_over phase ≡ 1
    → join_one phase 0 rest ≡ rest
join_one_over (serving rounds ws) rest h = absurd (omega arith)
join_one_over (finished s report) rest h = refl

pub join_threads-AllOver :
    {S : Type 0} (join_error : ℕ → ℕ) (threads : List (Thread S)) (i : ℕ)
    → ((k : ℕ) → join_error k ≡ 0)
    → AllOver threads
    → join_threads join_error threads i ≡ joined
unfolding join_threads
join_threads-AllOver join_error [] i fine over = refl
join_threads-AllOver join_error (th ∷ threads) i fine over =
    let rest =
      join_threads-AllOver join_error threads (suc i) fine (λ k u found. over (suc k) u found) in
    rw (fine i, rest) (join_one_over th.phase joined (over 0 th refl))

pub count_over-AllOver :
    {S : Type 0} (threads : List (Thread S)) → AllOver threads → count_over threads ≡ length threads
count_over-AllOver [] over = refl
count_over-AllOver (th ∷ threads) over =
    omega (arith, over 0 th refl, count_over-AllOver threads (λ k u found. over (suc k) u found))

length-rounds_from : (round : ℕ → _) (left i : ℕ) → length (rounds_from round left i) ≡ left
unfolding rounds_from
length-rounds_from round zero i = refl
length-rounds_from round (suc left) i = ap suc (length-rounds_from round left (suc i))

module _ {S : Type 0} (options : Options) (new_store : S) (clocks : ℕ → ThreadClocks) where
  -- The threads that main creates, from thread `i` on.
  unfoldable pub first_threads : ℕ → ℕ → List (Thread S)
  first_threads zero i = []
  first_threads (suc left) i = new_thread options new_store clocks i ∷ first_threads left (suc i)

  pub create_threads-first_threads :
      (create_error : ℕ → ℕ) (left i : ℕ)
      → ((k : ℕ) → create_error k ≡ 0)
      → create_threads options new_store clocks create_error left i ≡ some (first_threads left i)
  unfolding create_threads first_threads
  create_threads-first_threads create_error zero i fine = refl
  create_threads-first_threads create_error (suc left) i fine =
      rw (fine i, create_threads-first_threads create_error left (suc i) fine) refl

  pub length-first_threads : (left i : ℕ) → length (first_threads left i) ≡ left
  unfolding first_threads
  length-first_threads zero i = refl
  length-first_threads (suc left) i = ap suc (length-first_threads left (suc i))

  pub count_over-first_threads : (left i : ℕ) → count_over (first_threads left i) ≡ 0
  unfolding first_threads new_thread
  count_over-first_threads zero i = refl
  count_over-first_threads (suc left) i = omega (arith, count_over-first_threads left (suc i))

  pub turns_left-first_threads :
      (left i k : ℕ) (th : Thread S)
      → get_elem? (first_threads left i) k ≡ some th
      → turns_left th.phase ≡ suc options.requests
  unfolding first_threads new_thread
  turns_left-first_threads zero i k th found = absurd (cc found)
  turns_left-first_threads (suc left) i zero th found =
      let e : new_thread options new_store clocks i ≡ th = cc found in
      subst (λ x. turns_left x.phase ≡ suc options.requests) e
        (ap suc (length-rounds_from (clocks i).round options.requests 0))
  turns_left-first_threads (suc left) i (suc k) th found =
      turns_left-first_threads left (suc i) k th found
