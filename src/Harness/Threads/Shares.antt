-- ===== src/Harness/Threads/Shares.antt =====
-- How the threads share the hits.
use elevator.Base.{
  ℕ, ◌≡◌, ◌≢◌, refl, sym, subst, ap, ◌∙◌, Option, none, some, List, [], ◌∷◌, map, set, get_elem?,
  get_elem?-set_self, get_elem?-set_ne, ◌==◌, ==-refl, ne→==_false, if◌then◌else◌, ==_iff,
  ==_false→ne, Bool-cases, inl, inr, done,
}
use elevator.Harness.Control.{ReplayRate}
use elevator.Harness.Hits.{HitData, Boost}
use elevator.Harness.Hits.Source.{HitSource, Files, hit, no_hit, next_hit}
use elevator.Harness.Worker.{process_hit}
use elevator.Harness.Worker.Stored.{process_hits}
use elevator.Harness.Threads.{Phase, serving, finished, Thread, World}
use elevator.Store.{VCookieStore}

abbrev pub store_in : {S : Type 0} → Phase S → S
store_in (serving rounds ws) = ws.store
store_in (finished s report) = s

abbrev pub store_of : {S : Type 0} → Thread S → S
store_of th = store_in th.phase

-- The hits of thread `k`, in order.
abbrev pub hits_of : ℕ → List (ℕ × HitData) → List HitData
hits_of k [] = []
hits_of k ((j, h) ∷ given) = if j == k then h ∷ hits_of k given else hits_of k given

module _ (boost : Boost) (rate : ReplayRate) (files : Files) (st : VCookieStore) (fuel : ℕ) where
  -- Calls of NextHit, one after the other, with the hits that they gave.
  pub data Gives : Option HitSource → List HitData → Option HitSource → Type 0 where
    nothing : (s : Option HitSource) → Gives s [] s
    gives :
        (s s' : HitSource) (h : HitData) (hits : List HitData) (end : Option HitSource)
        → next_hit boost fuel files s ≡ hit h s'
        → Gives (some s') hits end
        → Gives (some s) (h ∷ hits) end
    ended :
        (s s' : HitSource) (hits : List HitData) (end : Option HitSource)
        → next_hit boost fuel files s ≡ no_hit s'
        → Gives (some s') hits end
        → Gives (some s) hits end

  -- The threads got the hits of `given`, each hit one of the threads that there are, and each thread stored what its hits leave
  -- in its store.
  pub record Shares (w w' : World st.State) (given : List (ℕ × HitData)) : Type 0 where
    pub source : Gives w.hits (map (λ g. g.1) given) w'.hits
    pub stored :
        (k : ℕ) (th : Thread st.State)
        → get_elem? w.threads k ≡ some th
        → (th' : Thread st.State) × (get_elem? w'.threads k ≡ some th')
          × (process_hits st (store_of th) (hits_of k given) ≡ done (store_of th'))
    -- No hit goes to a number that names no thread.
    pub to_threads : (k : ℕ) → get_elem? w.threads k ≡ none → hits_of k given ≡ []

  -- What `Shares` says of thread `k`.
  abbrev Stores : World st.State → World st.State → List (ℕ × HitData) → ℕ → Type 0
  Stores w w' given k =
      (th : Thread st.State)
      → get_elem? w.threads k ≡ some th
      → (th' : Thread st.State) × (get_elem? w'.threads k ≡ some th')
        × (process_hits st (store_of th) (hits_of k given) ≡ done (store_of th'))

  -- A turn of thread `i`, which goes on as `th1`: `given` extends `rest` by what it got.
  module _ (w w1 w' : World st.State) (i : ℕ) (th th1 : Thread st.State)
      (given rest : List (ℕ × HitData)) (here : get_elem? w.threads i ≡ some th)
      (moved : w1.threads ≡ set w.threads i th1) (s : Shares w1 w' rest) where
    own-Stores :
        process_hits st (store_of th) (hits_of i given)
          ≡ process_hits st (store_of th1) (hits_of i rest)
        → Stores w w' given i
    own-Stores own u at =
        let (th', found, fed) =
          s.stored i th1
            (ap (λ l. get_elem? l i) moved ∙ get_elem?-set_self w.threads i th th1 here) in
        let e : th ≡ u = cc (sym here ∙ at) in
        (
          th',
          found,
          subst
              (λ (x : Thread st.State).
                process_hits st (store_of x) (hits_of i given) ≡ done (store_of th'))
              e (own ∙ fed),
        )

    other-Stores : (k : ℕ) → i ≢ k → hits_of k given ≡ hits_of k rest → Stores w w' given k
    other-Stores k other same u at =
        let (th', found, fed) =
          s.stored k u
            (ap (λ l. get_elem? l k) moved ∙ get_elem?-set_ne w.threads i k th1 other ∙ at) in
        (th', found, rw same fed)

    apart_from : (k : ℕ) → i ≡ k → get_elem? w.threads k ≢ none
    apart_from k e h =
        let n : get_elem? w.threads i ≡ none = ap (λ j. get_elem? w.threads j) e ∙ h in
        cc (sym here ∙ n)

    -- The number names no thread after the turn either.
    nobody : (k : ℕ) → get_elem? w.threads k ≡ none → get_elem? w1.threads k ≡ none
    nobody k h = elim (Bool-cases (i == k)) [
      | inl same ↦ absurd (apart_from k ((==_iff i k).0 same) h)
      | inr other ↦
          ap (λ l. get_elem? l k) moved
          ∙ get_elem?-set_ne w.threads i k th1 (==_false→ne i k other)
          ∙ h
    ]

    stored_on :
        Gives w.hits (map (λ g. g.1) given) w'.hits
        → process_hits st (store_of th) (hits_of i given)
          ≡ process_hits st (store_of th1) (hits_of i rest)
        → ((k : ℕ) → i ≢ k → hits_of k given ≡ hits_of k rest)
        → Shares w w' given
    stored_on source own others = record {
      source = source;
      stored = λ k. elim (Bool-cases (i == k)) [
        | inl same ↦ subst (Stores w w' given) ((==_iff i k).0 same) (own-Stores own)
        | inr other ↦ other-Stores k (==_false→ne i k other) (others k (==_false→ne i k other))
      ];
      to_threads = λ k h. others k (λ e. apart_from k e h) ∙ s.to_threads k (nobody k h);
    }

  -- A turn adds what it gave to what is given after it.
  unfoldable pub Continues : World st.State → World st.State → Type 0
  Continues w w1 =
      (w' : World st.State) (rest : List (ℕ × HitData))
      → Shares w1 w' rest
      → (given : List (ℕ × HitData)) × Shares w w' given

  -- The thread changes, and neither its store nor the hits do.
  pub quiet :
      (w w1 : World st.State) (i : ℕ) (th th1 : Thread st.State)
      → get_elem? w.threads i ≡ some th
      → w1.threads ≡ set w.threads i th1
      → store_of th ≡ store_of th1
      → ((hits : List HitData) (end : Option HitSource)
          → Gives w1.hits hits end
          → Gives w.hits hits end)
      → Continues w w1
  unfolding Continues
  quiet w w1 i th th1 here moved same source w' rest s = (
    rest,
    stored_on w w1 w' i th th1 rest rest here moved s (source _ _ s.source)
        (ap (λ x. process_hits st x (hits_of i rest)) same) (λ k other. refl),
  )

  -- The thread handles a hit.
  pub served :
      (w w1 : World st.State) (i : ℕ) (th th1 : Thread st.State) (h : HitData)
      (source source' : HitSource)
      → get_elem? w.threads i ≡ some th
      → w1.threads ≡ set w.threads i th1
      → w.hits ≡ some source
      → w1.hits ≡ some source'
      → next_hit boost fuel files source ≡ hit h source'
      → process_hit st (store_of th) h ≡ done (store_of th1)
      → Continues w w1
  unfolding Continues process_hits
  served w w1 i th th1 h source source' here moved before after next fed w' rest s = (
    (i, h) ∷ rest,
    stored_on w w1 w' i th th1 ((i, h) ∷ rest) rest here moved s
        (rw before (gives source source' h _ _ next (rw after at s.source)))
        (rw (==-refl i, fed) refl) (λ k other. rw (ne→==_false i k other) refl),
  )
