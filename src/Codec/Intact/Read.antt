-- ===== src/Codec/Intact/Read.antt =====
-- Deserialize (abstraction/vcookiestore.cpp) of bytes leaves a cookie intact.
use elevator.Base.{
  ℕ, ◌<◌, ◌≡◌, ◌≢◌, refl, subst, sym, arith, Bool, [], ◌∷◌, none, some, ◌==◌, Bytes, Bool-cases,
  Option-cases, inl, inr, read_text, done,
}
use elevator.Cookie.{VCookie, set_purchase_id, set_cookie_var, add_cookie_element}
use elevator.Cookie.Purchases.Order.{set_purchase_ids-IsValid}
use elevator.Cookie.Vars.{VarTable, invalid_rid, set_var, add_linear_element}
use elevator.Cookie.Vars.Linear.{add_linear_element-Holds}
use elevator.Codec.Read.{deserialize}
use elevator.Codec.Invariant.{IsKept, IsStored}
use elevator.Codec.Total.{deserialize-Keeps}
use elevator.Codec.Valid.{
  AreBytes, Word, Between, alloc_of, read_word-fits, All-drop, set_purchase_ids-All, first_names,
}
use elevator.Codec.Intact.{
  IsIntact, IsIntactTable, set_var-IsIntactTable, add_linear_element-IsIntactTable,
}

read_text-AreBytes :
    (bs rest s : Bytes) → AreBytes bs → read_text bs ≡ some (s, rest) → AreBytes s × AreBytes rest
unfolding read_text
read_text-AreBytes [] rest s h e = absurd (cc e)
read_text-AreBytes (b ∷ bs) rest s (f, h) e = elim (Bool-cases (b == 0)) [
  | inl n ↦
      let k : some ([], bs) ≡ some (s, rest) = rw n at e in
      let value : [] ≡ s = cc k in
      let left : bs ≡ rest = cc k in (subst AreBytes value tt, subst AreBytes left h)
  | inr n ↦ elim (Option-cases (read_text bs)) [
    | inl none_read ↦ absurd (let k : none ≡ some (s, rest) = rw (n, none_read) at e in cc k)
    | inr ((s', rest'), read) ↦
        let k : some (b ∷ s', rest') ≡ some (s, rest) = rw (n, read) at e in
        let (bytes, all) = read_text-AreBytes bs rest' s' h read in
        let value : b ∷ s' ≡ s = cc k in
        let left : rest' ≡ rest = cc k in (subst AreBytes value (f, bytes), subst AreBytes left all)
  ]
]

-- SetPurchaseId of bytes.
pub set_purchase_id-IsIntact :
    (c : VCookie) (s : Bytes) → AreBytes s → IsIntact c → IsIntact (set_purchase_id c s).0
unfolding set_purchase_id
set_purchase_id-IsIntact c s t h =
    let (distinct, five) = set_purchase_ids-IsValid c.purchase_ids s h.distinct h.five in
    record {
      referrer = h.referrer;
      page_url = h.page_url;
      pagename = h.pagename;
      merchandising_text = h.merchandising_text;
      ids = set_purchase_ids-All AreBytes c.purchase_ids s h.distinct h.five t h.ids;
      distinct = distinct;
      five = five;
      table = h.table;
    }

-- A change of the variables and of the flags that go with them.
pub with_table-IsIntact :
    (c c' : VCookie) (t : VarTable) (m n : Bool)
    → c' ≡ record c { table = t; modified = m; rel_var_modified = n }
    → IsIntact c
    → IsIntactTable t
    → IsIntact c'
with_table-IsIntact c c' t m n e h k = subst IsIntact (sym e) (record {
  referrer = h.referrer;
  page_url = h.page_url;
  pagename = h.pagename;
  merchandising_text = h.merchandising_text;
  ids = h.ids;
  distinct = h.distinct;
  five = h.five;
  table = k;
})

IsIntact-IsKept : IsKept IsIntact AreBytes Word AreBytes
IsIntact-IsKept = record {
  word = λ size rest rest' v k e. read_word-fits size v rest rest' k e;
  text = λ rest rest' s k e. read_text-AreBytes rest rest' s k e;
  behind = λ n rest k. All-drop (λ b. b < 256) n rest k;
  first_hit_time_gmt = λ c v w h. ground arith;
  last_hit_time_gmt = λ c v w h. ground arith;
  last_hit_time_visitor_local = λ c v w h. ground arith;
  last_visit_num = λ c v w h. ground arith;
  last_purchase_time_gmt = λ c v w h. ground arith;
  first_hit_referrer = λ c s w h. ground arith;
  first_hit_page_url = λ c s w h. ground arith;
  first_hit_pagename = λ c s w h. ground arith;
  last_purchase_num = λ c v w h. ground arith;
  merchandising = λ c s w h. ground arith;
  purchase_id = λ c s w h. set_purchase_id-IsIntact c s w h;
}

abbrev BetweenValid : ℕ → ℕ → ℕ → ℕ → VCookie → Type 0
BetweenValid rid cnt left v c = (rid ≢ invalid_rid) × Between rid cnt left v c

IsIntact-IsStored : IsStored IsIntact AreBytes Word AreBytes BetweenValid
unfolding set_cookie_var add_cookie_element
IsIntact-IsStored = record {
  start = λ rid cnt c w ne w1 h. (ne, (omega arith, omega arith, inl refl));
  first = λ rid cnt left c e t u w h (ne, b).
      let r = set_var c.table rid e (alloc_of cnt) cnt in
      let table = set_var-IsIntactTable c.table rid e (alloc_of cnt) cnt b.0 ne t h.table in
      (
        with_table-IsIntact c _ r.table _ _ refl h table,
        (ne, (b.0, omega (arith, b.1), first_names c.table rid cnt left e h.table.well_formed b.1)),
      );
  later = λ rid cnt left v c e t u w h set (ne, b). elim b.2 [
    | inl unset ↦ absurd (set unset)
    | inr named ↦ elim named [
      | inr none_left ↦ absurd (omega arith)
      | inl names ↦
          let (holds, names', stored) =
            add_linear_element-Holds c.table rid v e h.table.well_formed names in
          let table = add_linear_element-IsIntactTable c.table rid v e ne t h.table names in
          (
            with_table-IsIntact c _ (add_linear_element c.table v e).0 _ _ refl h table,
            (ne, (b.0, omega (arith, b.1), inr (inl names'))),
          )
    ]
  ];
}

pub deserialize-IsIntact :
    (c : VCookie) (buffer : Bytes)
    → AreBytes buffer
    → IsIntact c
    → (answer : Bool) × (c' : VCookie) × (deserialize c buffer ≡ done (answer, c')) × IsIntact c'
deserialize-IsIntact c buffer b h =
    deserialize-Keeps IsIntact AreBytes Word AreBytes IsIntact-IsKept BetweenValid IsIntact-IsStored
      buffer b c h
