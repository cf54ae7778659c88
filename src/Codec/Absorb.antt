-- ===== src/Codec/Absorb.antt =====
-- Deserialize reads the fields of the format.
use elevator.Base.{
  ℕ, ◌^◌, ◌<◌, ◌≡◌, ◌≢◌, ◌⊎◌, refl, ap, ◌∙◌, arith, Bool, true, false, List, [], ◌∷◌, ◌++◌, ◌==◌,
  if◌then◌else◌, length, Bytes, word, read_word, All, Bool-cases, inl, inr, ne→==_false, ==-refl,
  read_word-word, read_text-append,
}
use elevator.Cookie.{
  VCookie, set_first_hit_time_gmt, set_last_hit_time_gmt, set_last_hit_time_visitor_local,
  set_last_visit_num, set_last_purchase_time_gmt, set_first_hit_referrer, set_first_hit_url,
  set_first_hit_pagename, set_last_purchase_num, set_merchandising, set_purchase_id,
}
use elevator.Cookie.Vars.{is_empty}
use elevator.Codec.Read.{
  Reader, Outcome, next, Parse, continue, read_item, read_text_item, number_field, text_field,
  purchase_field, read_purchase_ids, read_fields,
}
use elevator.Codec.Format.{Ahead, flat, number, text, texts, purchases, fields}

abbrev pub at : Bytes → VCookie → Reader
at rest c = record { rest = rest; cookie = c }

abbrev pub HasNoNul : Bytes → Type 0
HasNoNul s = All (λ b. b ≢ 0) s

-- One step of a parser.
pub step :
    {A B : Type 0} {m : Outcome A} {a : A} {r : Reader} {out : Outcome B} (f : A → Parse B)
    → m ≡ next a r
    → f a r ≡ out
    → continue m f ≡ out
step f p q = ap (λ m. continue m f) p ∙ q

pub read_item-word :
    (n v : ℕ) (rest : Bytes) (c : VCookie)
    → v < 256 ^ n
    → read_item n (at (word n v ++ rest) c) ≡ next v (at rest c)
unfolding read_item
read_item-word n v rest c h = rw (read_word-word n v rest h)

pub read_item-byte :
    (b : ℕ) (rest : Bytes) (c : VCookie) → read_item 1 (at (b ∷ rest) c) ≡ next b (at rest c)
unfolding read_item read_word
read_item-byte b rest c = ap (λ (v : ℕ). next v (at rest c)) (omega arith)

pub read_text_item-text :
    (s rest : Bytes) (c : VCookie)
    → HasNoNul s
    → read_text_item (at (s ++ (0 ∷ rest)) c) ≡ next s (at rest c)
unfolding read_text_item
read_text_item-text s rest c h = rw (read_text-append s rest h)

-- The byte ahead ends the fields or starts one above `k`.
abbrev pub Above : ℕ → Ahead → Type 0
Above k s = (s.0 ≡ 0) ⊎ (k < s.0)

-- What a field does to the cookie.
unfoldable pub put_number : (VCookie → ℕ → VCookie) → ℕ → VCookie → VCookie
put_number set v c = if v == 0 then c else set c v

unfoldable pub put_text : (VCookie → Bytes → VCookie) → Bytes → VCookie → VCookie
put_text set v c = if is_empty v then c else set c v

unfoldable pub put_ids : List Bytes → VCookie → VCookie
put_ids [] c = c
put_ids (p ∷ ps) c = put_ids ps (set_purchase_id c p).0

module _ (field : ℕ) (positive : 0 < field) where
  not_field : (s : Ahead) → Above field s → (s.0 == field) ≡ false
  not_field s (inl e) = ne→==_false s.0 field (omega arith)
  not_field s (inr g) = ne→==_false s.0 field (omega arith)

  number_field-number :
      (size v : ℕ) (set : VCookie → ℕ → VCookie) (s : Ahead) (c : VCookie)
      → v < 256 ^ size
      → Above field s
      → number_field field size set (number field size v s).0 (at (number field size v s).1 c)
        ≡ next s.0 (at s.1 (put_number set v c))
  unfolding number_field number put_number
  number_field-number size v set s c h a = elim (Bool-cases (v == 0)) [
    | inl e ↦ rw (e, not_field s a)
    | inr n ↦
        rw (n, ==-refl field)
          (step _ (read_item-word size v (flat s) c h) (read_item-byte s.0 s.1 (set c v)))
  ]

  text_field-text :
      (v : Bytes) (set : VCookie → Bytes → VCookie) (s : Ahead) (c : VCookie)
      → HasNoNul v
      → Above field s
      → text_field field set (text field v s).0 (at (text field v s).1 c)
        ≡ next s.0 (at s.1 (put_text set v c))
  unfolding text_field text put_text
  text_field-text v set s c h a = elim (Bool-cases (is_empty v)) [
    | inl e ↦ rw (e, not_field s a)
    | inr n ↦
        rw (n, ==-refl field)
          (step _ (read_text_item-text v (flat s) c h) (read_item-byte s.0 s.1 (set c v)))
  ]

  number-Above :
      (k size v : ℕ) (s : Ahead) → k < field → Above field s → Above k (number field size v s)
  unfolding number
  number-Above k size v s h a = elim (Bool-cases (v == 0)) [
    | inl e ↦ rw e (weaken a)
    | inr n ↦ rw n (inr h)
  ]
    where
      weaken : Above field s → Above k s
      weaken (inl e) = inl e
      weaken (inr g) = inr (omega arith)

  text-Above :
      (k : ℕ) (v : Bytes) (s : Ahead) → k < field → Above field s → Above k (text field v s)
  unfolding text
  text-Above k v s h a = elim (Bool-cases (is_empty v)) [
    | inl e ↦ rw e (weaken a)
    | inr n ↦ rw n (inr h)
  ]
    where
      weaken : Above field s → Above k s
      weaken (inl e) = inl e
      weaken (inr g) = inr (omega arith)

read_purchase_ids-texts :
    (ids : List Bytes) (rest : Bytes) (c : VCookie)
    → All HasNoNul ids
    → read_purchase_ids (length ids) (at (texts ids rest) c) ≡ next tt (at rest (put_ids ids c))
unfolding read_purchase_ids put_ids
read_purchase_ids-texts [] rest c h = refl
read_purchase_ids-texts (p ∷ ps) rest c h =
    step _ (read_text_item-text p (texts ps rest) c h.0)
      (read_purchase_ids-texts ps rest (set_purchase_id c p).0 h.1)

purchase_field-purchases :
    (ids : List Bytes) (t : Bytes) (c : VCookie)
    → All HasNoNul ids
    → purchase_field (purchases ids (0, t)).0 (at (purchases ids (0, t)).1 c)
      ≡ next 0 (at t (put_ids ids c))
unfolding purchase_field purchases put_ids
purchase_field-purchases [] t c h = refl
purchase_field-purchases (p ∷ ps) t c h = step _ (read_item-byte (length (p ∷ ps)) _ c) (
    step _ (read_purchase_ids-texts (p ∷ ps) (0 ∷ t) c h) (read_item-byte 0 t (put_ids (p ∷ ps) c)))

purchases-Above : (ids : List Bytes) (t : Bytes) → Above 10 (purchases ids (0, t))
unfolding purchases
purchases-Above [] t = inl refl
purchases-Above (p ∷ ps) t = inr (omega arith)

-- A cookie whose contents fit the format.
pub record IsStorable (c : VCookie) : Type 0 where
  pub first_hit : c.first_hit_time_gmt < 2 ^ 64
  pub last_hit : c.last_hit_time_gmt < 2 ^ 64
  pub visit_num : c.last_visit_num < 2 ^ 32
  pub purchase_num : c.last_purchase_num < 2 ^ 32
  pub referrer : HasNoNul c.first_hit_referrer
  pub page_url : HasNoNul c.first_hit_page_url
  pub pagename : HasNoNul c.first_hit_pagename
  pub merchandising_text : HasNoNul c.merchandising
  pub ids : All HasNoNul c.purchase_ids

-- The cookie `c0` after the fields of `c` are read.
unfoldable pub fill : VCookie → Bool → VCookie → VCookie
fill c save c0 = put_ids c.purchase_ids (
    put_text set_merchandising c.merchandising (
      put_number set_last_purchase_num c.last_purchase_num (
        put_text set_first_hit_pagename c.first_hit_pagename (
          put_text set_first_hit_url c.first_hit_page_url (
            put_text set_first_hit_referrer c.first_hit_referrer (
              put_number set_last_purchase_time_gmt c.last_hit_time_gmt (
                put_number set_last_visit_num c.last_visit_num (
                  put_number set_last_hit_time_visitor_local c.last_hit_time_gmt (
                    put_number set_last_hit_time_gmt (if save then c.last_hit_time_gmt else 0)
                      (put_number set_first_hit_time_gmt c.first_hit_time_gmt c0))))))))))

pub read_fields-format :
    (c : VCookie) (save : Bool) (c0 : VCookie) (t : Bytes)
    → IsStorable c
    → read_fields (at (flat (fields c save (0, t))) c0) ≡ next 0 (at t (fill c save c0))
unfolding read_fields fields fill
read_fields-format c save c0 t w = step _ (read_item-byte _ _ c0) (
    step _
      (number_field-number 1 (omega arith) 8 c.first_hit_time_gmt set_first_hit_time_gmt s2 _
        w.first_hit a2)
      (step _
        (number_field-number 2 (omega arith) 8 (if save then c.last_hit_time_gmt else 0)
          set_last_hit_time_gmt s3 _ (saved save) a3)
        (step _
          (number_field-number 3 (omega arith) 8 c.last_hit_time_gmt set_last_hit_time_visitor_local
            s4 _ w.last_hit a4)
          (step _
            (number_field-number 4 (omega arith) 4 c.last_visit_num set_last_visit_num s5 _
              w.visit_num a5)
            (step _
              (number_field-number 5 (omega arith) 8 c.last_hit_time_gmt set_last_purchase_time_gmt
                s6 _ w.last_hit a6)
              (step _
                (text_field-text 6 (omega arith) c.first_hit_referrer set_first_hit_referrer s7 _
                  w.referrer a7)
                (step _
                  (text_field-text 7 (omega arith) c.first_hit_page_url set_first_hit_url s8 _
                    w.page_url a8)
                  (step _
                    (text_field-text 8 (omega arith) c.first_hit_pagename set_first_hit_pagename s9
                      _ w.pagename a9)
                    (step _
                      (number_field-number 9 (omega arith) 4 c.last_purchase_num
                        set_last_purchase_num s10 _ w.purchase_num a10)
                      (step _
                        (text_field-text 10 (omega arith) c.merchandising set_merchandising s11 _
                          w.merchandising_text a11)
                        (purchase_field-purchases c.purchase_ids t _ w.ids)))))))))))
  where
    saved : (save : Bool) → (if save then c.last_hit_time_gmt else 0) < 256 ^ 8
    saved true = w.last_hit
    saved false = omega arith

    s11 : Ahead
    s11 = purchases c.purchase_ids (0, t)

    s10 : Ahead
    s10 = text 10 c.merchandising s11

    s9 : Ahead
    s9 = number 9 4 c.last_purchase_num s10

    s8 : Ahead
    s8 = text 8 c.first_hit_pagename s9

    s7 : Ahead
    s7 = text 7 c.first_hit_page_url s8

    s6 : Ahead
    s6 = text 6 c.first_hit_referrer s7

    s5 : Ahead
    s5 = number 5 8 c.last_hit_time_gmt s6

    s4 : Ahead
    s4 = number 4 4 c.last_visit_num s5

    s3 : Ahead
    s3 = number 3 8 c.last_hit_time_gmt s4

    s2 : Ahead
    s2 = number 2 8 (if save then c.last_hit_time_gmt else 0) s3

    a11 : Above 10 s11
    a11 = purchases-Above c.purchase_ids t

    a10 : Above 9 s10
    a10 = text-Above 10 (omega arith) 9 c.merchandising s11 (omega arith) a11

    a9 : Above 8 s9
    a9 = number-Above 9 (omega arith) 8 4 c.last_purchase_num s10 (omega arith) a10

    a8 : Above 7 s8
    a8 = text-Above 8 (omega arith) 7 c.first_hit_pagename s9 (omega arith) a9

    a7 : Above 6 s7
    a7 = text-Above 7 (omega arith) 6 c.first_hit_page_url s8 (omega arith) a8

    a6 : Above 5 s6
    a6 = text-Above 6 (omega arith) 5 c.first_hit_referrer s7 (omega arith) a7

    a5 : Above 4 s5
    a5 = number-Above 5 (omega arith) 4 8 c.last_hit_time_gmt s6 (omega arith) a6

    a4 : Above 3 s4
    a4 = number-Above 4 (omega arith) 3 4 c.last_visit_num s5 (omega arith) a5

    a3 : Above 2 s3
    a3 = number-Above 3 (omega arith) 2 8 c.last_hit_time_gmt s4 (omega arith) a4

    a2 : Above 1 s2
    a2 =
        number-Above 2 (omega arith) 1 8 (if save then c.last_hit_time_gmt else 0) s3 (omega arith)
          a3
