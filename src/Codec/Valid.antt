-- ===== src/Codec/Valid.antt =====
-- Deserialize (abstraction/vcookiestore.cpp) leaves a cookie valid, whatever bytes the buffer holds.
use native.Mathlib.Nat.{pow-suc}
use elevator.Base.{
  ◌∙◌, ℕ, zero, suc, ◌+◌, ◌*◌, ◌^◌, ◌≤◌, ◌<◌, ◌≡◌, ◌⊎◌, refl, subst, sym, arith, Bool, List, [],
  ◌∷◌, ◌++◌, none, some, ◌==◌, if◌then◌else◌, ltb, length, drop, All, All-append, Bytes, bytes_eq,
  Bool-cases, Option-cases, inl, inr, read_word, read_text, ==_false→ne, ltb_false→le, done,
}
use elevator.Cookie.{VCookie, set_purchase_id, set_cookie_var, add_cookie_element}
use elevator.Cookie.Purchases.{set_purchase_ids}
use elevator.Cookie.Purchases.Order.{
  Distinct, without, set_purchase_ids_lem, set_purchase_ids-IsValid,
}
use elevator.Cookie.Vars.{
  RelVar, VarTable, AllocationType, alloc_type_linear, alloc_type_last, var_not_set, is_empty,
  set_var, add_linear_element,
}
use elevator.Cookie.Vars.View.{IsWellFormed}
use elevator.Cookie.Vars.Update.{set_var-Holds}
use elevator.Cookie.Vars.Linear.{Names, add_linear_element-Holds, set_var-Names}
use elevator.Codec.Read.{deserialize}
use elevator.Codec.Absorb.{HasNoNul, IsStorable}
use elevator.Codec.Invariant.{IsKept, IsStored}
use elevator.Codec.Loaded.{SameVisitor, deserialize-SameVisitor}
use elevator.Codec.Total.{deserialize-Keeps}

abbrev pub AreBytes : Bytes → Type 0
AreBytes bs = All (λ b. b < 256) bs

-- The times are 64-bit patterns and the two numbers 32-bit ones; no text that is a member and no purchase id has a
-- NUL; there are five purchase ids at most, all distinct; and the table of the variables is well-formed. The
-- elements of the variables are not bound.
pub record IsValid (c : VCookie) : Type 0 where
  pub storable : IsStorable c
  pub hit_local : c.last_hit_time_visitor_local < 2 ^ 64
  pub purchase_time : c.last_purchase_time_gmt < 2 ^ 64
  pub distinct : Distinct c.purchase_ids
  pub five : length c.purchase_ids ≤ 5
  pub well_formed : IsWellFormed c.table

pub read_word-fits :
    (n v : ℕ) (bs rest : Bytes)
    → AreBytes bs
    → read_word n bs ≡ some (v, rest)
    → (v < 256 ^ n) × AreBytes rest
unfolding read_word
read_word-fits zero v bs rest h e =
    let k : some (0, bs) ≡ some (v, rest) = e in (ground (arith, k), subst AreBytes (cc k) h)
read_word-fits (suc n) v [] rest h e = cc
read_word-fits (suc n) v (b ∷ bs) rest (f, h) e = elim (Option-cases (read_word n bs)) [
  | inl none_read ↦ absurd (let k : none ≡ some (v, rest) = rw none_read at e in cc k)
  | inr ((u, r), read) ↦
      let k : some (b + 256 * u, r) ≡ some (v, rest) = rw read at e in
      let (fits, all) = read_word-fits n u bs r h read in
      let p = pow-suc 256 n in
      let value : b + 256 * u ≡ v = ground (arith, k) in
      let left : r ≡ rest = cc k in
      let below : b + 256 * u < 256 ^ suc n = omega (arith, p, fits) in
      (subst (λ (x : ℕ). x < 256 ^ suc n) value below, subst AreBytes left all)
]

pub read_text-fits :
    (bs rest s : Bytes) → AreBytes bs → read_text bs ≡ some (s, rest) → HasNoNul s × AreBytes rest
unfolding read_text
read_text-fits [] rest s h e = absurd (cc e)
read_text-fits (b ∷ bs) rest s (f, h) e = elim (Bool-cases (b == 0)) [
  | inl n ↦
      let k : some ([], bs) ≡ some (s, rest) = rw n at e in
      let text : [] ≡ s = cc k in
      let left : bs ≡ rest = cc k in (subst HasNoNul text tt, subst AreBytes left h)
  | inr n ↦ elim (Option-cases (read_text bs)) [
    | inl none_read ↦ absurd (let k : none ≡ some (s, rest) = rw (n, none_read) at e in cc k)
    | inr ((s', rest'), read) ↦
        let k : some (b ∷ s', rest') ≡ some (s, rest) = rw (n, read) at e in
        let (nul, all) = read_text-fits bs rest' s' h read in
        let text : b ∷ s' ≡ s = cc k in
        let left : rest' ≡ rest = cc k in
        (subst HasNoNul text (==_false→ne b 0 n, nul), subst AreBytes left all)
  ]
]

pub All-drop : {A : Type 0} (Q : A → Type 0) (n : ℕ) (xs : List A) → All Q xs → All Q (drop n xs)
All-drop Q zero xs h = h
All-drop Q (suc n) [] h = tt
All-drop Q (suc n) (x ∷ xs) (f, h) = All-drop Q n xs h

All-without : (Q : Bytes → Type 0) (p : Bytes) (xs : List Bytes) → All Q xs → All Q (without p xs)
unfolding without
All-without Q p [] h = tt
All-without Q p (x ∷ xs) (f, h) = elim (Bool-cases (bytes_eq x p)) [
  | inl e ↦ rw e (All-without Q p xs h)
  | inr e ↦ rw e (f, All-without Q p xs h)
]

pub set_purchase_ids-All :
    (Q : Bytes → Type 0) (ids : List Bytes) (p : Bytes)
    → Distinct ids
    → length ids ≤ 5
    → Q p
    → All Q ids
    → All Q (set_purchase_ids ids p).0
set_purchase_ids-All Q ids p d five f h = rw (set_purchase_ids_lem ids p d five) (
    All-drop Q _ (without p ids ++ (p ∷ []))
      (All-append Q (without p ids) (p ∷ []) (All-without Q p ids h) (f, tt)))

abbrev pub Word : ℕ → ℕ → Type 0
Word size v = v < 256 ^ size

set_purchase_id-IsValid :
    (c : VCookie) (s : Bytes) → HasNoNul s → IsValid c → IsValid (set_purchase_id c s).0
unfolding set_purchase_id
set_purchase_id-IsValid c s t h =
    let (distinct, five) = set_purchase_ids-IsValid c.purchase_ids s h.distinct h.five in
    record {
      storable = record {
        first_hit = h.storable.first_hit;
        last_hit = h.storable.last_hit;
        visit_num = h.storable.visit_num;
        purchase_num = h.storable.purchase_num;
        referrer = h.storable.referrer;
        page_url = h.storable.page_url;
        pagename = h.storable.pagename;
        merchandising_text = h.storable.merchandising_text;
        ids = set_purchase_ids-All HasNoNul c.purchase_ids s h.distinct h.five t h.storable.ids;
      };
      hit_local = h.hit_local;
      purchase_time = h.purchase_time;
      distinct = distinct;
      five = five;
      well_formed = h.well_formed;
    }

IsValid-IsKept : IsKept IsValid AreBytes Word HasNoNul
IsValid-IsKept = record {
  word = λ size rest rest' v k e. read_word-fits size v rest rest' k e;
  text = λ rest rest' s k e. read_text-fits rest rest' s k e;
  behind = λ n rest k. All-drop (λ b. b < 256) n rest k;
  first_hit_time_gmt = λ c v w h. ground arith;
  last_hit_time_gmt = λ c v w h. ground arith;
  last_hit_time_visitor_local = λ c v w h. ground arith;
  last_visit_num = λ c v w h. ground arith;
  last_purchase_time_gmt = λ c v w h. ground arith;
  first_hit_referrer = λ c s w h. ground arith;
  first_hit_page_url = λ c s w h. ground arith;
  first_hit_pagename = λ c s w h. ground arith;
  last_purchase_num = λ c v w h. ground arith;
  merchandising = λ c s w h. ground arith;
  purchase_id = λ c s w h. set_purchase_id-IsValid c s w h;
}

-- Between two elements the VarId names the variable, or it is not set and the next element sets it.
abbrev pub Between : ℕ → ℕ → ℕ → ℕ → VCookie → Type 0
Between rid cnt left v c =
    (rid < 2 ^ 16) × (left ≤ cnt) × ((v ≡ var_not_set) ⊎ Names c.table v rid ⊎ (left ≡ 0))

abbrev pub alloc_of : ℕ → AllocationType
alloc_of cnt = if ltb 1 cnt then alloc_type_linear else alloc_type_last

with_table-IsValid :
    (c c' : VCookie) (t : VarTable) (m n : Bool)
    → c' ≡ record c { table = t; modified = m; rel_var_modified = n }
    → IsValid c
    → IsWellFormed t
    → IsValid c'
with_table-IsValid c c' t m n e h w = subst IsValid (sym e) (record {
  storable = record {
    first_hit = h.storable.first_hit;
    last_hit = h.storable.last_hit;
    visit_num = h.storable.visit_num;
    purchase_num = h.storable.purchase_num;
    referrer = h.storable.referrer;
    page_url = h.storable.page_url;
    pagename = h.storable.pagename;
    merchandising_text = h.storable.merchandising_text;
    ids = h.storable.ids;
  };
  hit_local = h.hit_local;
  purchase_time = h.purchase_time;
  distinct = h.distinct;
  five = h.five;
  well_formed = w;
})

-- The VarId that SetVar returns for an element of several names its variable, or it is not set.
pub first_names :
    (t : VarTable) (rid cnt left : ℕ) (e : RelVar)
    → IsWellFormed t
    → suc left ≤ cnt
    → let r = set_var t rid e (alloc_of cnt) cnt in
      (r.var_id ≡ var_not_set) ⊎ Names r.table r.var_id rid ⊎ (left ≡ 0)
first_names t rid cnt left e w n = elim (Bool-cases (ltb 1 cnt)) [
  | inr one ↦ let k = ltb_false→le 1 cnt one in inr (inr (omega arith))
  | inl several ↦ elim (Bool-cases (is_empty e.value)) [
    | inl empty ↦ inl (unfold set_var in rw empty refl)
    | inr full ↦ rw several (inr (inl (set_var-Names t rid e cnt w full)))
  ]
]

IsValid-IsStored : IsStored IsValid AreBytes Word HasNoNul Between
unfolding set_cookie_var add_cookie_element
IsValid-IsStored = record {
  start = λ rid cnt c w ne w1 h. (omega arith, omega arith, inl refl);
  first = λ rid cnt left c e t u w h b.
      let r = set_var c.table rid e (alloc_of cnt) cnt in
      let holds = set_var-Holds c.table rid h.well_formed e (alloc_of cnt) cnt b.0 in
      (
        with_table-IsValid c _ r.table _ _ refl h holds.well_formed,
        (b.0, omega (arith, b.1), first_names c.table rid cnt left e h.well_formed b.1),
      );
  later = λ rid cnt left v c e t u w h ne b. elim b.2 [
    | inl unset ↦ absurd (ne unset)
    | inr named ↦ elim named [
      | inr none_left ↦ absurd (omega arith)
      | inl names ↦
          let (holds, names', stored) =
            add_linear_element-Holds c.table rid v e h.well_formed names in
          (
            with_table-IsValid c _ (add_linear_element c.table v e).0 _ _ refl h holds.well_formed,
            (b.0, omega (arith, b.1), inr (inl names')),
          )
    ]
  ];
}

-- The place of the variables that the buffer gives, if it is long enough to give one, is in the buffer: past its end
-- the pointer to it is undefined.
abbrev pub PointsInside : Bytes → Type 0
PointsInside buffer =
    (offset : ℕ) (rest : Bytes)
    → read_word 4 (drop 3 buffer) ≡ some (offset, rest)
    → offset < length buffer

-- A buffer that Deserialize reads without leaving it.
abbrev pub IsBuffer : Bytes → Type 0
IsBuffer buffer = AreBytes buffer × PointsInside buffer

-- Deserialize returns for any buffer of bytes that does not place the variables past its end; whatever it answers, it leaves a
-- valid cookie valid, and the cookie of the same visitor.
pub deserialize-IsValid :
    (c : VCookie) (buffer : Bytes)
    → IsBuffer buffer
    → IsValid c
    → (answer : Bool) × (c' : VCookie) × (deserialize c buffer ≡ done (answer, c'))
      × IsValid c'
      × SameVisitor c c'
deserialize-IsValid c buffer (b, inside) h =
    let (answer, c', e, valid) =
      deserialize-Keeps IsValid AreBytes Word HasNoNul IsValid-IsKept Between IsValid-IsStored
        buffer b c h in
    let (answer', d, e', same) = deserialize-SameVisitor c buffer in
    let k : done (answer', d) ≡ done (answer, c') = sym e' ∙ e in
    let eq : d ≡ c' = cc k in (answer, c', e, valid, subst (SameVisitor c) eq same)
