-- ===== src/Memory/Keys.antt =====
-- VCookieId's operator < and the map that it orders.
use elevator.Base.{
  ◌<◌, ◌≡◌, ◌⊎◌, arith, true, false, [], ◌∷◌, some, ◌||◌, ◌&&◌, All, Bool-cases, inl, inr,
}
use elevator.Memory.{VCookieId, id_lt, StoreMap, ValuePair, find, insert, assign}

-- Two keys that operator < does not put both before and behind one another.
abbrev pub Comparable : VCookieId → VCookieId → Type 0
Comparable a b = (id_lt a b && id_lt b a) ≡ false

Comparable-sym : (a b : VCookieId) → Comparable a b → Comparable b a
Comparable-sym a b h = ground (arith, h)

-- The keys of a std::map, any two of which operator < has to order.
abbrev pub AreComparable : StoreMap → Type 0
AreComparable [] = Unit {0}
AreComparable ((k, v) ∷ m) = All (λ x. Comparable k x.0) m × AreComparable m

-- The map can be used with the key `k`: operator < orders it and the keys in the map.
abbrev pub Orders : VCookieId → StoreMap → Type 0
Orders k m = AreComparable m × All (λ x. Comparable k x.0) m

-- If `a` has the smaller user and `b` a smaller part of the visitor id, operator < holds both ways.
pub id_lt_both :
    (a b : VCookieId)
    → a.userid < b.userid
    → (b.visid_high < a.visid_high) ⊎ (b.visid_low < a.visid_low)
    → (id_lt a b ≡ true) × (id_lt b a ≡ true)
unfolding id_lt
id_lt_both a b h k = ground arith

pub id_lt_refl : (a : VCookieId) → id_lt a a ≡ false
unfolding id_lt
id_lt_refl a = ground arith

-- Keys that are before neither are equal.
pub id_eq : (a b : VCookieId) → id_lt a b ≡ false → id_lt b a ≡ false → a ≡ b
unfolding id_lt
id_eq a b p q = ground arith

-- What is saved under a key is found.
pub find-assign-insert :
    (k : VCookieId) (v w : ValuePair) (m : StoreMap) → find k (assign k w (insert k v m)) ≡ some w
unfolding find assign insert
find-assign-insert k v w [] = ground (arith, id_lt_refl k)
find-assign-insert k v w ((j, u) ∷ m) = ground (arith, id_lt_refl k, find-assign-insert k v w m)

-- Comparable keys are ordered in each part.
pub id_lt_trans :
    (a b c : VCookieId)
    → Comparable a b
    → Comparable b c
    → id_lt a b ≡ true
    → id_lt b c ≡ true
    → id_lt a c ≡ true
unfolding id_lt
id_lt_trans a b c h k p q = ground arith

-- A save leaves what is stored under other keys, if the keys are comparable.
pub find-assign-insert_ne :
    (j k : VCookieId) (v w : ValuePair) (m : StoreMap)
    → Comparable j k
    → (id_lt j k || id_lt k j) ≡ true
    → All (λ x. Comparable j x.0 × Comparable k x.0) m
    → find j (assign k w (insert k v m)) ≡ find j m
unfolding find assign insert
find-assign-insert_ne j k v w [] c d h = ground (arith, id_lt_refl k)
find-assign-insert_ne j k v w ((x, u) ∷ m) c d ((p, q), h) =
    ground
      (arith, id_lt_refl k, find-assign-insert_ne j k v w m c d h, id_lt_trans j k x, id_eq x k)

-- A property of the key that is saved and of the keys that are there.
module _ (Q : VCookieId → Type 0) where
  pub insert-All :
      (k : VCookieId) (v : ValuePair) (m : StoreMap)
      → Q k
      → All (λ x. Q x.0) m
      → All (λ x. Q x.0) (insert k v m)
  unfolding insert
  insert-All k v [] p h = (p, tt)
  insert-All k v ((j, w) ∷ m) p (q, h) = elim (Bool-cases (id_lt j k)) [
    | inl e ↦ rw e (q, insert-All k v m p h)
    | inr e ↦ elim (Bool-cases (id_lt k j)) [
      | inl f ↦ rw (e, f) (p, (q, h))
      | inr f ↦ rw (e, f) (q, h)
    ]
  ]

  pub assign-All :
      (k : VCookieId) (v : ValuePair) (m : StoreMap)
      → All (λ x. Q x.0) m
      → All (λ x. Q x.0) (assign k v m)
  unfolding assign
  assign-All k v [] h = tt
  assign-All k v ((j, w) ∷ m) (q, h) = elim (Bool-cases (id_lt j k)) [
    | inl e ↦ rw e (q, assign-All k v m h)
    | inr e ↦ elim (Bool-cases (id_lt k j)) [ inl f ↦ rw (e, f) (q, h) | inr f ↦ rw (e, f) (q, h) ]
  ]

insert-AreComparable :
    (k : VCookieId) (v : ValuePair) (m : StoreMap) → Orders k m → AreComparable (insert k v m)
unfolding insert
insert-AreComparable k v [] h = (tt, tt)
insert-AreComparable k v ((j, w) ∷ m) ((p, ps), (q, qs)) = elim (Bool-cases (id_lt j k)) [
  | inl e ↦ rw e (
    insert-All (Comparable j) k v m (Comparable-sym k j q) p,
    insert-AreComparable k v m (ps, qs),
  )
  | inr e ↦ elim (Bool-cases (id_lt k j)) [
    | inl f ↦ rw (e, f) ((q, qs), (p, ps))
    | inr f ↦ rw (e, f) (p, ps)
  ]
]

assign-AreComparable :
    (k : VCookieId) (v : ValuePair) (m : StoreMap) → AreComparable m → AreComparable (assign k v m)
unfolding assign
assign-AreComparable k v [] h = tt
assign-AreComparable k v ((j, w) ∷ m) (p, ps) = elim (Bool-cases (id_lt j k)) [
  | inl e ↦ rw e (assign-All (Comparable j) k v m p, assign-AreComparable k v m ps)
  | inr e ↦ elim (Bool-cases (id_lt k j)) [ inl f ↦ rw (e, f) (p, ps) | inr f ↦ rw (e, f) (p, ps) ]
]

Comparable-refl : (k : VCookieId) → Comparable k k
Comparable-refl k = ground (arith, id_lt_refl k)

-- After a save the map can be used with the key still.
pub assign-insert-Orders :
    (k : VCookieId) (v w : ValuePair) (m : StoreMap)
    → Orders k m
    → Orders k (assign k w (insert k v m))
assign-insert-Orders k v w m h = (
  assign-AreComparable k w (insert k v m) (insert-AreComparable k v m h),
  assign-All (Comparable k) k w (insert k v m)
      (insert-All (Comparable k) k v m (Comparable-refl k) h.1),
)
