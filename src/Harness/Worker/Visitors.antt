-- ===== src/Harness/Worker/Visitors.antt =====
-- The hits of one visitor do not depend on those of others (WorkerThread of testharness.cpp, over a store that keeps the
-- visitors apart).
pub mod Orders
use mathlib.Core.Quot
use mathlib.Core.Quot.{Quot}
use elevator.Base.{
  ℕ, ◌≡◌, ◌≢◌, refl, ap, sym, subst, ◌∙◌, arith, Bool, true, false, List, [], ◌∷◌, ◌==◌, ◌&&◌,
  if◌then◌else◌, Bool-cases, inl, inr, All, ==_iff, ==-refl, Run, done,
}
use elevator.Base.Outcome.{◌>>=◌, >>=-eq-done, done-inj}
use elevator.Cookie.{VCookie, construct, initial, after_load, clear_flags, set_purchase_id}
use elevator.Harness.Hits.{HitData}
use elevator.Harness.Worker.{before_evars, set_evars, update_cookie, process_hit}
use elevator.Harness.Worker.Stored.{process_hits}
use elevator.Harness.Worker.Visits.{with_vars_of, set_evars_vars}
use elevator.Store.{VCookieStore}
use elevator.Store.Contract.{Visitor, visitor, Agree, KeepsApart}

abbrev pub visitor_of : HitData → Visitor
visitor_of hit = (hit.rsid, hit.visid_high, hit.visid_low)

abbrev pub is_of : Visitor → HitData → Bool
is_of v hit = hit.rsid == v.0 && (hit.visid_high == v.1 && hit.visid_low == v.2)

-- The hits of one visitor, in their order.
abbrev pub hits_of : Visitor → List HitData → List HitData
hits_of v [] = []
hits_of v (hit ∷ hits) = if is_of v hit then hit ∷ hits_of v hits else hits_of v hits

pub is_of-eq : (v : Visitor) (hit : HitData) → is_of v hit ≡ true → visitor_of hit ≡ v
is_of-eq v hit e = ground arith

pub is_of-ne : (v : Visitor) (hit : HitData) → is_of v hit ≡ false → v ≢ visitor_of hit
is_of-ne v hit e k = let same : is_of v hit ≡ true = rw k (simp ==-refl) in cc (same)

before_evars-visitor : (c : VCookie) (hit : HitData) → visitor (before_evars c hit) ≡ visitor c
unfolding before_evars set_purchase_id
before_evars-visitor c hit = ground arith

-- A hit does not change whose cookie it is.
update_cookie-visitor : (c : VCookie) (hit : HitData) → visitor (update_cookie c hit) ≡ visitor c
unfolding update_cookie
update_cookie-visitor c hit =
    let b = before_evars c hit in
    ap visitor (set_evars_vars b 0 hit.hit_time_gmt hit.evar) ∙ before_evars-visitor c hit

module _ (st : VCookieStore) (IsServed : Visitor → Type 0) (IsSound : st.State → Type 0)
    (apart : KeepsApart st IsServed IsSound) where
  after_load-visitor :
      (c c' : VCookie) (r : Run (Bool × VCookie))
      → ((found : Bool) (d : VCookie) → r ≡ done (found, d) → visitor d ≡ visitor c)
      → after_load r ≡ done c'
      → visitor c' ≡ visitor c
  unfolding clear_flags
  after_load-visitor c c' (Run.done (found, d)) go e =
      ap visitor (sym (done-inj _ c' e)) ∙ go found d refl
  after_load-visitor c c' Run.fault go e = absurd (cc e)
  after_load-visitor c c' Run.out_of_fuel go e = absurd (cc e)

  construct-visitor :
      (s : st.State) (user vid_high vid_low : ℕ) (new_visitor : Bool) (c : VCookie)
      → construct (st.load_vcookie s) user vid_high vid_low new_visitor ≡ done c
      → visitor c ≡ (user, vid_high, vid_low)
  unfolding construct clear_flags
  construct-visitor s user vid_high vid_low true c e = ap visitor (sym (done-inj _ c e))
  construct-visitor s user vid_high vid_low false c e =
      let c0 = initial user vid_high vid_low false in
      after_load-visitor c0 c (st.load_vcookie s c0)
        (λ found d read. apart.loaded s c0 d found read) e

  construct-Agree :
      (s t : st.State) (user vid_high vid_low : ℕ) (new_visitor : Bool)
      → Agree st IsServed IsSound (user, vid_high, vid_low) s t
      → construct (st.load_vcookie s) user vid_high vid_low new_visitor
        ≡ construct (st.load_vcookie t) user vid_high vid_low new_visitor
  unfolding construct
  construct-Agree s t user vid_high vid_low true a = refl
  construct-Agree s t user vid_high vid_low false a =
      ap after_load (a (initial user vid_high vid_low false))

  -- What a hit that was processed did.
  record Processed (s s' : st.State) (hit : HitData) : Type 0 where
    cookie : VCookie
    saved : Bool
    found :
        construct (st.load_vcookie s) hit.rsid hit.visid_high hit.visid_low hit.visid_new
        ≡ done cookie
    written : st.save_vcookie s (update_cookie cookie hit) ≡ done (s', saved)
    owned : visitor (update_cookie cookie hit) ≡ visitor_of hit

  process_hit-Processed :
      (s s' : st.State) (hit : HitData) → process_hit st s hit ≡ done s' → Processed s s' hit
  unfolding process_hit
  process_hit-Processed s s' hit e =
      let (c, found, k) =
        >>=-eq-done
          (construct (st.load_vcookie s) hit.rsid hit.visid_high hit.visid_low hit.visid_new) _ e in
      let ((s1, saved), written, last) =
        >>=-eq-done (st.save_vcookie s (update_cookie c hit)) _ k in
      record {
        cookie = c;
        saved = saved;
        found = found;
        written = written ∙ ap (λ (x : st.State). done (x, saved)) (done-inj s1 s' last);
        owned =
            update_cookie-visitor c hit
            ∙ construct-visitor s hit.rsid hit.visid_high hit.visid_low hit.visid_new c found;
      }

  pub process_hit-IsSound :
      (s s' : st.State) (hit : HitData)
      → IsServed (visitor_of hit)
      → IsSound s
      → process_hit st s hit ≡ done s'
      → IsSound s'
  process_hit-IsSound s s' hit q h e =
      let r = process_hit-Processed s s' hit e in
      apart.sound s s' (update_cookie r.cookie hit) r.saved (subst IsServed (sym r.owned) q) h
        r.written

  -- A hit of another visitor is not seen.
  pub process_hit_other :
      (v : Visitor) (s s' : st.State) (hit : HitData)
      → IsServed v
      → IsServed (visitor_of hit)
      → v ≢ visitor_of hit
      → IsSound s
      → process_hit st s hit ≡ done s'
      → Agree st IsServed IsSound v s' s
  process_hit_other v s s' hit p q ne h e =
      let r = process_hit-Processed s s' hit e in
      let served = subst IsServed (sym r.owned) q in
      apart.others s s' (update_cookie r.cookie hit) r.saved v served p
        (subst (λ u. v ≢ u) (sym r.owned) ne) h r.written

  -- A hit of the visitor does the same in each store that loads the same for the visitor.
  pub process_hit_own :
      (s t s' : st.State) (hit : HitData)
      → Agree st IsServed IsSound (visitor_of hit) s t
      → process_hit st s hit ≡ done s'
      → (t' : st.State) × (process_hit st t hit ≡ done t')
        × Agree st IsServed IsSound (visitor_of hit) s' t'
  unfolding process_hit
  process_hit_own s t s' hit a e =
      let r = process_hit-Processed s s' hit e in
      let (t', written, agree) = apart.own s t s' (update_cookie r.cookie hit) r.saved r.written in
      let found =
        sym (construct-Agree s t hit.rsid hit.visid_high hit.visid_low hit.visid_new a) ∙ r.found in
      (t', rw (found, written) refl, subst (λ u. Agree st IsServed IsSound u s' t') r.owned agree)

  -- On a store that keeps visitors apart, in a sound state: where hits of visitors that are served are processed
  -- one after the other, the hits of one of them, processed alone from a state that loads the same for that visitor, are
  -- processed too, and both runs leave what loads the same for the visitor.
  pub process_hits-hits_of :
      (v : Visitor) (hits : List HitData) (s t s' : st.State)
      → IsServed v
      → All (λ hit. IsServed (visitor_of hit)) hits
      → IsSound s
      → Agree st IsServed IsSound v s t
      → process_hits st s hits ≡ done s'
      → (t' : st.State) × (process_hits st t (hits_of v hits) ≡ done t')
        × Agree st IsServed IsSound v s' t'
  unfolding process_hits
  process_hits-hits_of v [] s t s' p q h a e =
      (t, refl, subst (λ u. Agree st IsServed IsSound v u t) (done-inj s s' e) a)
  process_hits-hits_of v (hit ∷ hits) s t s' p (q, qs) h a e =
      let (s1, one, rest) = >>=-eq-done (process_hit st s hit) _ e in
      let further =
        λ (t1 : st.State) (sound : IsSound s1) (agree : Agree st IsServed IsSound v s1 t1).
          process_hits-hits_of v hits s1 t1 s' p qs sound agree rest in
      elim (Bool-cases (is_of v hit)) [
        | inl own ↦
            let same = is_of-eq v hit own in
            let (t1, two, agree) =
              process_hit_own s t s1 hit (subst (λ u. Agree st IsServed IsSound u s t) (sym same) a)
                one in
            let (t', all, seen) =
              further t1 (process_hit-IsSound s s1 hit q h one)
                (subst (λ u. Agree st IsServed IsSound u s1 t1) same agree) in
            rw own (t', rw (two, all) refl, seen)
        | inr other ↦
            let agree = process_hit_other v s s1 hit p q (is_of-ne v hit other) h one in
            rw other (further t (process_hit-IsSound s s1 hit q h one) (λ d. agree d ∙ a d))
      ]
