-- ===== src/Memory/Apart.antt =====
-- VCStoreInMemory keeps visitors apart whose ids operator < orders.
use elevator.Base.{
  ◌≡◌, ◌≢◌, refl, ap, sym, subst, ◌∙◌, Bool, true, false, [], ◌∷◌, Option, none, some, ◌||◌,
  Bool-cases, inl, inr, All, Bytes, done,
}
use elevator.Base.Outcome.{>>=-eq-done}
use elevator.Cookie.{VCookie, set_last_hit_time_gmt}
use elevator.Codec.Write.{serialize}
use elevator.Codec.Loaded.{deserialize-SameVisitor}
use elevator.Memory.{
  VCookieId, ValuePair, StoreMap, vid, id_lt, find, insert, assign, save_vcookie, load_vcookie,
  load_found,
}
use elevator.Memory.Keys.{Comparable, id_eq, find-assign-insert, insert-All, assign-All}
use elevator.Memory.Restore.{load_vcookie-save_vcookie_ne}
use elevator.Store.Contract.{Visitor, visitor, as_visitor, KeepsApart}
use elevator.Store.Stores.{in_memory}

abbrev pub id_of : Visitor → VCookieId
id_of v = record { userid = v.0; visid_high = v.1; visid_low = v.2 }

abbrev pub owner : VCookieId → Visitor
owner k = (k.userid, k.visid_high, k.visid_low)

-- What SaveVCookie of the in-memory store leaves.
save_vcookie-eq-done :
    (s s' : StoreMap) (c : VCookie) (saved : Bool)
    → save_vcookie s c ≡ done (s', saved)
    → (buffer : Bytes) × (serialize c false ≡ done buffer)
      × (s'
          ≡ assign
              (vid c)
              (c.last_hit_time_gmt, buffer)
              (insert (vid c) (c.last_hit_time_gmt, []) s))
      × (saved ≡ true)
unfolding save_vcookie
save_vcookie-eq-done s s' c saved e =
    let (buffer, written, k) = >>=-eq-done (serialize c false) _ e in (buffer, written, cc k, cc k)

load_found-visitor :
    (c c' : VCookie) (found : Bool) (node : Option ValuePair)
    → load_found c node ≡ done (found, c')
    → visitor c' ≡ visitor c
unfolding load_found
load_found-visitor c c' found none e = let k : c ≡ c' = cc e in ap visitor (sym k)
load_found-visitor c c' found (some (t, buffer)) e =
    let (answer, d, read, (u, h, l)) = deserialize-SameVisitor (set_last_hit_time_gmt c t) buffer in
    let k : done (answer, d) ≡ done (found, c') = sym read ∙ e in
    let same : d ≡ c' = cc k in ap visitor (sym same) ∙ (λ i. (u i, h i, l i))

own_lem :
    (s t s' : StoreMap) (c : VCookie) (saved : Bool)
    → save_vcookie s c ≡ done (s', saved)
    → (t' : StoreMap) × (save_vcookie t c ≡ done (t', saved))
      × ((d : VCookie)
          → load_vcookie s' (as_visitor (visitor c) d) ≡ load_vcookie t' (as_visitor (visitor c) d))
unfolding load_vcookie
own_lem s t s' c saved e =
    let (buffer, written, left, answer) = save_vcookie-eq-done s s' c saved e in
    let node : ValuePair = (c.last_hit_time_gmt, buffer) in
    let put = λ (m : StoreMap). assign (vid c) node (insert (vid c) (c.last_hit_time_gmt, []) m) in
    let found = λ (m : StoreMap). find-assign-insert (vid c) (c.last_hit_time_gmt, []) node m in
    (
      put t,
      unfold save_vcookie in rw (written, answer) refl,
      λ d.
          ap (load_found (as_visitor (visitor c) d))
            (ap (find (vid c)) left ∙ found s ∙ sym (found t)),
    )

module _ (IsServed : Visitor → Type 0) where
  abbrev pub AllServed : StoreMap → Type 0
  AllServed s = All (λ x. IsServed (owner x.0)) s

  module _
      (ordered : (a b : Visitor) → IsServed a → IsServed b → Comparable (id_of a) (id_of b)) where
    served-Comparable :
        (a b : Visitor) (m : StoreMap)
        → IsServed a
        → IsServed b
        → AllServed m
        → All (λ x. Comparable (id_of a) x.0 × Comparable (id_of b) x.0) m
    served-Comparable a b [] p q h = tt
    served-Comparable a b ((k, w) ∷ m) p q (r, h) =
        ((ordered a (owner k) p r, ordered b (owner k) q r), served-Comparable a b m p q h)

    differ :
        (a b : Visitor) → a ≢ b → (id_lt (id_of a) (id_of b) || id_lt (id_of b) (id_of a)) ≡ true
    differ a b ne = elim (Bool-cases (id_lt (id_of a) (id_of b))) [
      | inl e ↦ rw e refl
      | inr e ↦ elim (Bool-cases (id_lt (id_of b) (id_of a))) [
        | inl f ↦ rw (e, f) refl
        | inr f ↦ absurd (ne (ap owner (id_eq (id_of a) (id_of b) e f)))
      ]
    ]

    others :
        (s s' : StoreMap) (c d : VCookie) (saved : Bool)
        → IsServed (visitor c)
        → IsServed (visitor d)
        → visitor d ≢ visitor c
        → AllServed s
        → save_vcookie s c ≡ done (s', saved)
        → load_vcookie s' d ≡ load_vcookie s d
    others s s' c d saved p q ne h e =
        let (buffer, written, left, answer) = save_vcookie-eq-done s s' c saved e in
        load_vcookie-save_vcookie_ne s s' c d (rw answer at e) (ordered (visitor d) (visitor c) q p)
          (differ (visitor d) (visitor c) ne) (served-Comparable (visitor d) (visitor c) s q p h)

    -- Where operator < orders the ids of the visitors that are served, the in-memory store keeps them apart, as long as it
    -- holds records of such visitors only.
    pub in_memory-KeepsApart : KeepsApart in_memory IsServed AllServed
    in_memory-KeepsApart = record {
      sound = λ s s' c saved p h e.
          let (buffer, written, left, answer) = save_vcookie-eq-done s s' c saved e in
          subst AllServed (sym left) (
            assign-All (λ k. IsServed (owner k)) (vid c) _ _
              (insert-All (λ k. IsServed (owner k)) (vid c) _ s p h));
      others = λ s s' c saved v p q ne h e d. others s s' c (as_visitor v d) saved p q ne h e;
      own = λ s t s' c saved e. own_lem s t s' c saved e;
      loaded = λ s c c' found e.
          load_found-visitor c c' found (find (vid c) s) (unfold load_vcookie in e);
    }
