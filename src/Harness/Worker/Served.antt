-- ===== src/Harness/Worker/Served.antt =====
-- Every hit is processed on the in-memory store (WorkerThread of testharness.cpp, VCStoreInMemory.h).
use elevator.Base.{
  ℕ, ◌≡◌, refl, subst, ap, ◌∙◌, arith, Bool, true, false, List, [], ◌∷◌, Option, none, some, All,
  Bytes, read_word, Bool-cases, inl, inr, done,
}
use elevator.Cookie.{VCookie, construct, initial, after_load, clear_flags, set_last_hit_time_gmt}
use elevator.Cookie.Vars.Refine.{no_vars-Holds}
use elevator.Codec.Valid.{IsBuffer}
use elevator.Codec.Intact.{IsIntact}
use elevator.Codec.Intact.Read.{deserialize-IsIntact}
use elevator.Codec.Intact.Written.{serialize-IsBuffer}
use elevator.Memory.{
  VCookieId, ValuePair, StoreMap, vid, id_lt, find, insert, assign, load_found, load_vcookie,
  save_vcookie,
}
use elevator.Memory.Keys.{Comparable, AreComparable}
use elevator.Memory.Apart.{id_of, owner, AllServed, in_memory-KeepsApart}
use elevator.Store.Contract.{Visitor}
use elevator.Store.Stores.{in_memory}
use elevator.Harness.Worker.Visitors.{visitor_of, process_hit-IsSound}
use elevator.Harness.Hits.{HitData}
use elevator.Harness.Worker.{update_cookie, process_hit}
use elevator.Harness.Worker.Stored.{process_hits}
use elevator.Harness.Worker.Changes.{IsHit, SameContents-IsIntact, update_cookie-IsIntact}

-- Each buffer in the store holds bytes, and does not place variables past its end.
abbrev pub HoldsBytes : StoreMap → Type 0
HoldsBytes s = All (λ x. IsBuffer x.1.1) s

find-IsBuffer :
    (k : VCookieId) (s : StoreMap) (t : ℕ) (buffer : Bytes)
    → HoldsBytes s
    → find k s ≡ some (t, buffer)
    → IsBuffer buffer
unfolding find
find-IsBuffer k [] t buffer h e = absurd (cc e)
find-IsBuffer k ((j, (u, b)) ∷ m) t buffer (f, h) e = elim (Bool-cases (id_lt j k)) [
  | inl l ↦ find-IsBuffer k m t buffer h (rw l at e)
  | inr l ↦ elim (Bool-cases (id_lt k j)) [
    | inl g ↦ absurd (let n : none ≡ some (t, buffer) = rw (l, g) at e in cc n)
    | inr g ↦
        let n : some (u, b) ≡ some (t, buffer) = rw (l, g) at e in
        let same : b ≡ buffer = cc n in subst IsBuffer same f
  ]
]

insert-HoldsBytes :
    (k : VCookieId) (v : ValuePair) (s : StoreMap)
    → IsBuffer v.1
    → HoldsBytes s
    → HoldsBytes (insert k v s)
unfolding insert
insert-HoldsBytes k v [] p h = (p, tt)
insert-HoldsBytes k v ((j, w) ∷ m) p (q, h) = elim (Bool-cases (id_lt j k)) [
  | inl e ↦ rw e (q, insert-HoldsBytes k v m p h)
  | inr e ↦ elim (Bool-cases (id_lt k j)) [
    | inl f ↦ rw (e, f) (p, (q, h))
    | inr f ↦ rw (e, f) (q, h)
  ]
]

assign-HoldsBytes :
    (k : VCookieId) (v : ValuePair) (s : StoreMap)
    → IsBuffer v.1
    → HoldsBytes s
    → HoldsBytes (assign k v s)
unfolding assign
assign-HoldsBytes k v [] p h = tt
assign-HoldsBytes k v ((j, w) ∷ m) p (q, h) = elim (Bool-cases (id_lt j k)) [
  | inl e ↦ rw e (q, assign-HoldsBytes k v m p h)
  | inr e ↦ elim (Bool-cases (id_lt k j)) [ inl f ↦ rw (e, f) (q, h) | inr f ↦ rw (e, f) (p, h) ]
]

initial-IsIntact :
    (user vid_high vid_low : ℕ) (is_new : Bool) → IsIntact (initial user vid_high vid_low is_new)
initial-IsIntact user vid_high vid_low is_new = record {
  referrer = tt;
  page_url = tt;
  pagename = tt;
  merchandising_text = tt;
  ids = tt;
  distinct = tt;
  five = omega arith;
  table = record { well_formed = no_vars-Holds.well_formed; vars = tt };
}

-- The constructor returns an intact cookie.
construct-IsIntact :
    (s : StoreMap) (user vid_high vid_low : ℕ) (is_new : Bool)
    → HoldsBytes s
    → (c : VCookie) × (construct (load_vcookie s) user vid_high vid_low is_new ≡ done c)
      × IsIntact c
unfolding construct clear_flags load_vcookie load_found
construct-IsIntact s user vid_high vid_low true h = (
  _,
  refl,
  SameContents-IsIntact (initial user vid_high vid_low true) _ (refl, refl, refl, refl, refl, refl)
      (initial-IsIntact user vid_high vid_low true),
)
construct-IsIntact s user vid_high vid_low false h = by_node (find (vid c0) s) refl
  where
    c0 : VCookie
    c0 = initial user vid_high vid_low false

    by_node :
        (o : Option ValuePair)
        → find (vid c0) s ≡ o
        → (c : VCookie) × (after_load (load_vcookie s c0) ≡ done c) × IsIntact c
    by_node none e = (
      _,
      ap (λ (o : Option ValuePair). after_load (load_found c0 o)) e,
      SameContents-IsIntact c0 _ (refl, refl, refl, refl, refl, refl)
          (initial-IsIntact user vid_high vid_low false),
    )
    by_node (some (t, buffer)) e =
        let (answer, d, read, intact) =
          deserialize-IsIntact (set_last_hit_time_gmt c0 t) buffer
            (find-IsBuffer (vid c0) s t buffer h e).0
            (SameContents-IsIntact c0 _ (refl, refl, refl, refl, refl, refl)
              (initial-IsIntact user vid_high vid_low false)) in
        (
          _,
          ap (λ (o : Option ValuePair). after_load (load_found c0 o)) e ∙ ap after_load read,
          SameContents-IsIntact d _ (refl, refl, refl, refl, refl, refl) intact,
        )

-- The dummy vector that SaveVCookie inserts.
no_bytes : IsBuffer []
unfolding read_word
no_bytes = (tt, λ offset rest e. absurd (cc e))

save_vcookie-HoldsBytes :
    (s : StoreMap) (c : VCookie)
    → IsIntact c
    → HoldsBytes s
    → (s' : StoreMap) × (save_vcookie s c ≡ done (s', true)) × HoldsBytes s'
unfolding save_vcookie
save_vcookie-HoldsBytes s c i h =
    let (buffer, written, bytes) = serialize-IsBuffer c false i in
    (
      assign (vid c) (c.last_hit_time_gmt, buffer) (insert (vid c) (c.last_hit_time_gmt, []) s),
      rw written refl,
      assign-HoldsBytes (vid c) (c.last_hit_time_gmt, buffer) _ bytes
          (insert-HoldsBytes (vid c) (c.last_hit_time_gmt, []) s no_bytes h),
    )

process_hit-HoldsBytes :
    (s : StoreMap) (hit : HitData)
    → IsHit hit
    → HoldsBytes s
    → (s' : StoreMap) × (process_hit in_memory s hit ≡ done s') × HoldsBytes s'
unfolding process_hit
process_hit-HoldsBytes s hit f h =
    let (c, loaded, intact) =
      construct-IsIntact s hit.rsid hit.visid_high hit.visid_low hit.visid_new h in
    let (s', saved, holds) =
      save_vcookie-HoldsBytes s (update_cookie c hit) (update_cookie-IsIntact c hit f intact) h in
    (s', rw loaded (rw saved refl), holds)

module _ (IsServed : Visitor → Type 0)
    (ordered : (a b : Visitor) → IsServed a → IsServed b → Comparable (id_of a) (id_of b)) where
  served_with :
      (v : Visitor) (s : StoreMap)
      → IsServed v
      → AllServed IsServed s
      → All (λ x. Comparable (id_of v) x.0) s
  served_with v [] p h = tt
  served_with v ((k, w) ∷ s) p (q, h) = (ordered v (owner k) p q, served_with v s p h)

  served-AreComparable : (s : StoreMap) → AllServed IsServed s → AreComparable s
  served-AreComparable [] h = tt
  served-AreComparable ((k, w) ∷ s) (q, h) = (served_with (owner k) s q h, served-AreComparable s h)

  -- Where operator < orders the ids of the visitors that are served: on an in-memory store whose buffers hold bytes and do not place variables past
  -- their ends, of such visitors only, all hits of such visitors whose texts are bytes and that have fewer than 2 ^ 16 evars are processed,
  -- without a fault, and leave such a store, whose ids operator < orders.
  pub process_hits-HoldsBytes :
      (hits : List HitData) (s : StoreMap)
      → All IsHit hits
      → All (λ hit. IsServed (visitor_of hit)) hits
      → HoldsBytes s
      → AllServed IsServed s
      → (s' : StoreMap) × (process_hits in_memory s hits ≡ done s')
        × HoldsBytes s'
        × AllServed IsServed s'
        × AreComparable s'
  unfolding process_hits
  process_hits-HoldsBytes [] s f q h served = (s, refl, h, served, served-AreComparable s served)
  process_hits-HoldsBytes (hit ∷ hits) s (f, fs) (q, qs) h served =
      let (s1, one, holds) = process_hit-HoldsBytes s hit f h in
      let kept =
        process_hit-IsSound in_memory IsServed (AllServed IsServed)
          (in_memory-KeepsApart IsServed ordered) s s1 hit q served one in
      let (s', all, last, own, comparable) = process_hits-HoldsBytes hits s1 fs qs holds kept in
      (s', rw (one, all) refl, last, own, comparable)
