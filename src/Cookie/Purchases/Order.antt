-- ===== src/Cookie/Purchases/Order.antt =====
-- SetPurchaseId keeps the last five different ids, the latest last.
use elevator.Base.{
  ℕ, zero, suc, ◌-◌, ◌≤◌, ◌<◌, ◌≡◌, ◌≢◌, ◌||◌, drop, length-drop, ==_false→ne, refl, ap, ◌∙◌, sym,
  arith, Bool, true, false, not, List, [], ◌∷◌, ◌++◌, none, some, ◌==◌, if◌then◌else◌, length,
  Bytes, bytes_eq, bytes_eq_refl, bytes_eq→eq, Bool-cases, inl, inr, length-append, ne→==_false,
  ==_iff,
}
use mathlib.Core.Bool.{false≢true}
use elevator.Cookie.Purchases.{
  shift_left, move_to_end, set_purchase_ids, pop_front, num_saved_purchase_ids,
}

-- Whether an id occurs, and the list with no occurrence of it.
unfoldable pub occurs : Bytes → List Bytes → Bool
occurs p [] = false
occurs p (x ∷ xs) = if bytes_eq x p then true else occurs p xs

unfoldable pub without : Bytes → List Bytes → List Bytes
without p [] = []
without p (x ∷ xs) = if bytes_eq x p then without p xs else x ∷ without p xs

abbrev pub Distinct : List Bytes → Type 0
Distinct [] = Unit
Distinct (x ∷ xs) = (occurs x xs ≡ false) × Distinct xs

shift_left_lem : (p x : Bytes) (xs : List Bytes) → shift_left p (x ∷ xs) ≡ xs ++ (p ∷ [])
unfolding shift_left
shift_left_lem p x [] = refl
shift_left_lem p x (y ∷ ys) = ap (λ t. y ∷ t) (shift_left_lem p y ys)

without_absent : (p : Bytes) (xs : List Bytes) → occurs p xs ≡ false → without p xs ≡ xs
unfolding occurs without
without_absent p [] h = refl
without_absent p (x ∷ xs) h = ground (arith, without_absent p xs)

move_absent : (p : Bytes) (xs : List Bytes) → occurs p xs ≡ false → move_to_end p xs ≡ none
unfolding occurs move_to_end
move_absent p [] h = refl
move_absent p (x ∷ xs) h = ground (arith, move_absent p xs)

occurs_eq : (p x : Bytes) (xs : List Bytes) → bytes_eq x p ≡ true → occurs x xs ≡ occurs p xs
occurs_eq p x xs h = ap (λ t. occurs t xs) (bytes_eq→eq x p h)

-- A match moves to the end.
move_present :
    (p : Bytes) (xs : List Bytes)
    → Distinct xs
    → occurs p xs ≡ true
    → move_to_end p xs ≡ some (without p xs ++ (p ∷ []))
unfolding occurs move_to_end without
move_present p [] d h = cc
move_present p (x ∷ xs) d h = elim (Bool-cases (bytes_eq x p)) [
  | inl e ↦ rw (e, without_absent p xs (sym (occurs_eq p x xs e) ∙ d.0)) (moved xs e)
  | inr n ↦ rw (n, move_present p xs d.1 (rw n at h))
]
  where
    moved :
        (ys : List Bytes)
        → bytes_eq x p ≡ true
        → some (elim ys [ [] ↦ x ∷ [] | z ∷ zs ↦ shift_left p (x ∷ z ∷ zs) ])
          ≡ some (ys ++ (p ∷ []))
    moved [] e = ap (λ (t : Bytes). some (t ∷ [])) (bytes_eq→eq x p e)
    moved (z ∷ zs) e = ap some (shift_left_lem p x (z ∷ zs))

length-without : (p : Bytes) (xs : List Bytes) → length (without p xs) ≤ length xs
unfolding without
length-without p [] = omega arith
length-without p (x ∷ xs) = ground (arith, length-without p xs)

length-without_present :
    (p : Bytes) (xs : List Bytes) → occurs p xs ≡ true → length (without p xs) < length xs
unfolding without occurs
length-without_present p [] h = cc
length-without_present p (x ∷ xs) h =
    ground (arith, length-without p xs, length-without_present p xs)

-- The last five of a list.
abbrev pub last_five : List Bytes → List Bytes
last_five l = drop (length l - num_saved_purchase_ids) l

-- An id that is not in a list with room is appended.
pub set_purchase_ids-append :
    (ids : List Bytes) (p : Bytes)
    → occurs p ids ≡ false
    → length ids < 5
    → set_purchase_ids ids p ≡ (ids ++ (p ∷ []), true)
unfolding set_purchase_ids
set_purchase_ids-append ids p h k =
    rw (move_absent p ids h, ne→==_false (length ids) 5 (omega arith))

-- On at most five distinct ids, the list afterwards is the last five of the list without the id and then the id; the answer is
-- whether it was new.
pub set_purchase_ids_lem :
    (ids : List Bytes) (p : Bytes)
    → Distinct ids
    → length ids ≤ 5
    → set_purchase_ids ids p ≡ (last_five (without p ids ++ (p ∷ [])), not (occurs p ids))
set_purchase_ids_lem ids p d h = elim (Bool-cases (occurs p ids)) [
  | inl old ↦
      unfold set_purchase_ids in
      rw (move_present p ids d old, old)
        (ap (λ (n : ℕ). (drop n (without p ids ++ (p ∷ [])), false)) (room old))
  | inr new ↦ elim (Bool-cases (length ids == 5)) [
    | inl full ↦
        unfold set_purchase_ids in
        rw (move_absent p ids new, full, new, without_absent p ids new)
          (dropped ids ((==_iff _ _).0 full))
    | inr less ↦
        rw
          (
            set_purchase_ids-append ids p new (let n = ==_false→ne _ _ less in omega arith),
            new,
            without_absent p ids new,
          )
          (ap (λ (n : ℕ). (drop n (ids ++ (p ∷ [])), true)) (spare (==_false→ne _ _ less)))
  ]
]
  where
    room : occurs p ids ≡ true → 0 ≡ length (without p ids ++ (p ∷ [])) - 5
    room old =
        let a = length-without_present p ids old in
        omega (arith, length-append (without p ids) (p ∷ []))

    spare : length ids ≢ 5 → 0 ≡ length (ids ++ (p ∷ [])) - 5
    spare n = omega (arith, length-append ids (p ∷ []))

    dropped :
        (l : List Bytes)
        → length l ≡ 5
        → ◌≡◌ {A = List Bytes × Bool}
            (pop_front l ++ (p ∷ []), true)
            (last_five (l ++ (p ∷ [])), true)
    dropped [] k = absurd (omega arith)
    dropped (x ∷ xs) k =
        let one : length ((x ∷ xs) ++ (p ∷ [])) - 5 ≡ 1 =
          omega (arith, length-append (x ∷ xs) (p ∷ [])) in
        rw one

occurs-append :
    (p q : Bytes) (xs : List Bytes) → occurs p (xs ++ (q ∷ [])) ≡ (occurs p xs || bytes_eq q p)
unfolding occurs
occurs-append p q [] = ground arith
occurs-append p q (x ∷ xs) = ground (arith, occurs-append p q xs)

occurs-without :
    (p q : Bytes) (xs : List Bytes) → occurs p xs ≡ false → occurs p (without q xs) ≡ false
unfolding occurs without
occurs-without p q [] h = refl
occurs-without p q (x ∷ xs) h = ground (arith, occurs-without p q xs)

occurs-without_self : (p : Bytes) (xs : List Bytes) → occurs p (without p xs) ≡ false
unfolding occurs without
occurs-without_self p [] = refl
occurs-without_self p (x ∷ xs) = ground (arith, occurs-without_self p xs)

Distinct-without : (p : Bytes) (xs : List Bytes) → Distinct xs → Distinct (without p xs)
unfolding without
Distinct-without p [] d = tt
Distinct-without p (x ∷ xs) d = elim (Bool-cases (bytes_eq x p)) [
  | inl e ↦ rw e (Distinct-without p xs d.1)
  | inr n ↦ rw n (occurs-without x p xs d.0, Distinct-without p xs d.1)
]

bytes_eq_sym : (x y : Bytes) → bytes_eq x y ≡ false → bytes_eq y x ≡ false
bytes_eq_sym x y h = elim (Bool-cases (bytes_eq y x)) [
  | inr e ↦ e
  | inl e ↦ absurd (false≢true (sym h ∙ rw (bytes_eq→eq y x e) (bytes_eq_refl x)))
]

Distinct-append :
    (p : Bytes) (xs : List Bytes) → Distinct xs → occurs p xs ≡ false → Distinct (xs ++ (p ∷ []))
unfolding occurs
Distinct-append p [] d h = (refl, tt)
Distinct-append p (x ∷ xs) d h = elim (Bool-cases (bytes_eq x p)) [
  | inl e ↦ absurd (false≢true (sym h ∙ rw e))
  | inr n ↦
      (rw (occurs-append x p xs, d.0) (bytes_eq_sym x p n), Distinct-append p xs d.1 (rw n at h))
]

Distinct-drop : (n : ℕ) (xs : List Bytes) → Distinct xs → Distinct (drop n xs)
Distinct-drop zero xs d = d
Distinct-drop (suc n) [] d = tt
Distinct-drop (suc n) (x ∷ xs) d = Distinct-drop n xs d.1

-- SetPurchaseId keeps ids that are distinct and at most five so.
pub set_purchase_ids-IsValid :
    (ids : List Bytes) (p : Bytes)
    → Distinct ids
    → length ids ≤ 5
    → Distinct (set_purchase_ids ids p).0 × (length (set_purchase_ids ids p).0 ≤ 5)
set_purchase_ids-IsValid ids p d h = rw (set_purchase_ids_lem ids p d h) (
  Distinct-drop _ (without p ids ++ (p ∷ []))
      (Distinct-append p (without p ids) (Distinct-without p ids d) (occurs-without_self p ids)),
  omega (arith, length-drop (length (without p ids ++ (p ∷ [])) - 5) (without p ids ++ (p ∷ []))),
)

-- In a list of distinct ids none occurs before itself.
pub Distinct-earlier :
    (pre suf : List Bytes) (p : Bytes) → Distinct (pre ++ (p ∷ suf)) → occurs p pre ≡ false
unfolding occurs
Distinct-earlier [] suf p d = refl
Distinct-earlier (x ∷ pre) suf p d = rw (earlier pre d.0) (Distinct-earlier pre suf p d.1)
  where
    earlier : (l : List Bytes) → occurs x (l ++ (p ∷ suf)) ≡ false → bytes_eq x p ≡ false
    earlier [] h = elim (Bool-cases (bytes_eq p x)) [
      | inl e ↦ absurd (false≢true (sym h ∙ rw e))
      | inr n ↦ bytes_eq_sym p x n
    ]
    earlier (y ∷ l) h = earlier l (ground arith)
