-- ===== src/Codec/Invariant.antt =====
-- What every step of Deserialize keeps of the cookie, it keeps whatever the buffer holds.
use elevator.Base.{
  ==_iff, ==_false→ne, ◌≢◌, ℕ, zero, suc, ◌-◌, ◌≡◌, refl, Option, none, some, ◌==◌, ltb,
  if◌then◌else◌, length, drop, Bytes, Bool-cases, inl, inr, read_word, read_text, subst,
}
use elevator.Cookie.{
  VCookie, set_first_hit_time_gmt, set_last_hit_time_gmt, set_last_hit_time_visitor_local,
  set_last_visit_num, set_last_purchase_time_gmt, set_first_hit_referrer, set_first_hit_url,
  set_first_hit_pagename, set_last_purchase_num, set_merchandising, set_purchase_id, set_cookie_var,
  add_cookie_element,
}
use elevator.Cookie.Vars.{RelVar, alloc_type_linear, alloc_type_last, var_not_set, invalid_rid}
use elevator.Codec.Read.{
  store_element_at, read_elements, Reader, Parse, Outcome, ◌>>=◌, or_zero, next, stop, out_of_fuel,
  continue, or_stop, read_item, read_text_item, read_unchecked, number_field, text_field,
  read_purchase_ids, purchase_field, read_fields, jump,
}

abbrev pub Anything : {A : Type 0} → A → Type 0
Anything a = Unit {0}

-- A property of the cookie, of what is left of the buffer, and of the values that are read.
module _ (P : VCookie → Type 0) (Rest : Bytes → Type 0) (Word : ℕ → ℕ → Type 0)
    (Text : Bytes → Type 0) where
  -- The reader goes on with the property, or stops with it.
  abbrev pub Keeps : {A : Type 0} → (A → Type 0) → Outcome A → Type 0
  Keeps V (next a r) = V a × Rest r.rest × P r.cookie
  Keeps V (stop c) = P c
  Keeps V out_of_fuel = ⊥

  pub record IsKept : Type 0 where
    pub word :
        (size : ℕ) (rest rest' : Bytes) (v : ℕ)
        → Rest rest
        → read_word size rest ≡ some (v, rest')
        → Word size v × Rest rest'
    pub text :
        (rest rest' s : Bytes) → Rest rest → read_text rest ≡ some (s, rest') → Text s × Rest rest'
    pub behind : (n : ℕ) (rest : Bytes) → Rest rest → Rest (drop n rest)
    pub first_hit_time_gmt : (c : VCookie) (v : ℕ) → Word 8 v → P c → P (set_first_hit_time_gmt c v)
    pub last_hit_time_gmt : (c : VCookie) (v : ℕ) → Word 8 v → P c → P (set_last_hit_time_gmt c v)
    pub last_hit_time_visitor_local :
        (c : VCookie) (v : ℕ) → Word 8 v → P c → P (set_last_hit_time_visitor_local c v)
    pub last_visit_num : (c : VCookie) (v : ℕ) → Word 4 v → P c → P (set_last_visit_num c v)
    pub last_purchase_time_gmt :
        (c : VCookie) (v : ℕ) → Word 8 v → P c → P (set_last_purchase_time_gmt c v)
    pub first_hit_referrer :
        (c : VCookie) (s : Bytes) → Text s → P c → P (set_first_hit_referrer c s)
    pub first_hit_page_url : (c : VCookie) (s : Bytes) → Text s → P c → P (set_first_hit_url c s)
    pub first_hit_pagename :
        (c : VCookie) (s : Bytes) → Text s → P c → P (set_first_hit_pagename c s)
    pub last_purchase_num : (c : VCookie) (v : ℕ) → Word 4 v → P c → P (set_last_purchase_num c v)
    pub merchandising : (c : VCookie) (s : Bytes) → Text s → P c → P (set_merchandising c s)
    pub purchase_id : (c : VCookie) (s : Bytes) → Text s → P c → P (set_purchase_id c s).0

  pub continue-Keeps :
      {A B : Type 0} {V : A → Type 0} (W : B → Type 0) (o : Outcome A) (f : A → Reader → Outcome B)
      → Keeps V o
      → ((a : A) (r : Reader) → V a → Rest r.rest → P r.cookie → Keeps W (f a r))
      → Keeps W (continue o f)
  continue-Keeps W (next a r) f (v, k, h) go = go a r v k h
  continue-Keeps W (stop c) f h go = h
  continue-Keeps W out_of_fuel f h go = h

  pub or_stop-Keeps :
      {A : Type 0} (V : A → Type 0) (o : Option (A × Bytes)) (r : Reader)
      → P r.cookie
      → ((a : A) (rest : Bytes) → o ≡ some (a, rest) → V a × Rest rest)
      → Keeps V (or_stop o r)
  or_stop-Keeps V none r h go = h
  or_stop-Keeps V (some (a, rest)) r h go = let (v, k) = go a rest refl in (v, k, h)

  abbrev pub KeepsAll : {A : Type 0} → (A → Type 0) → Parse A → Type 0
  KeepsAll V p = (r : Reader) → Rest r.rest → P r.cookie → Keeps V (p r)

  pub bind-Keeps :
      {A B : Type 0} {V : A → Type 0} (W : B → Type 0) (p : Parse A) (f : A → Parse B)
      → KeepsAll V p
      → ((a : A) → V a → KeepsAll W (f a))
      → KeepsAll W (p >>= f)
  bind-Keeps W p f m go r k h = continue-Keeps W (p r) f (m r k h) (λ a r' v k' h'. go a v r' k' h')

  -- A value is read, and then `f` goes on with the cookie as it was.
  pub or_stop-continue-Keeps :
      {A B : Type 0} (W : B → Type 0) (o : Option (A × Bytes)) (r : Reader) (f : A → Parse B)
      → P r.cookie
      → ((a : A) (rest : Bytes) → o ≡ some (a, rest) → Keeps W (f a (record r { rest = rest })))
      → Keeps W (continue (or_stop o r) f)
  or_stop-continue-Keeps W none r f h go = h
  or_stop-continue-Keeps W (some (a, rest)) r f h go = go a rest refl

  -- What holds between two elements of a variable: of its relation id, the count, the number of elements left, the VarId
  -- and the cookie.
  module _ (Between : ℕ → ℕ → ℕ → ℕ → VCookie → Type 0) where
    pub record IsStored : Type 0 where
      pub start :
          (rid cnt : ℕ) (c : VCookie)
          → Word 2 rid
          → rid ≢ invalid_rid
          → Word 4 cnt
          → P c
          → Between rid cnt cnt var_not_set c
      pub first :
          (rid cnt left : ℕ) (c : VCookie) (e : RelVar)
          → Text e.value
          → Word 8 e.timestamp
          → Word 1 e.revision
          → P c
          → Between rid cnt (suc left) var_not_set c
          → let (c', v) =
              set_cookie_var c rid e
                (if ltb 1 cnt then alloc_type_linear else alloc_type_last)
                cnt in
            P c' × Between rid cnt left v c'
      pub later :
          (rid cnt left v : ℕ) (c : VCookie) (e : RelVar)
          → Text e.value
          → Word 8 e.timestamp
          → Word 1 e.revision
          → P c
          → v ≢ var_not_set
          → Between rid cnt (suc left) v c
          → P (add_cookie_element c v e) × Between rid cnt left v (add_cookie_element c v e)

  module _ (kept : IsKept) where
    pub read_item-Keeps :
        (size : ℕ) (r : Reader) → Rest r.rest → P r.cookie → Keeps (Word size) (read_item size r)
    unfolding read_item
    read_item-Keeps size r k h =
        or_stop-Keeps (Word size) (read_word size r.rest) r h
          (λ v rest e. kept.word size r.rest rest v k e)

    pub read_text_item-Keeps :
        (r : Reader) → Rest r.rest → P r.cookie → Keeps Text (read_text_item r)
    unfolding read_text_item
    read_text_item-Keeps r k h =
        or_stop-Keeps Text (read_text r.rest) r h (λ s rest e. kept.text r.rest rest s k e)

    number_field-Keeps :
        (field size next_field : ℕ) (set : VCookie → ℕ → VCookie)
        → ((c : VCookie) (v : ℕ) → Word size v → P c → P (set c v))
        → Word 1 next_field
        → (r : Reader) → Rest r.rest
        → P r.cookie
        → Keeps (Word 1) (number_field field size set next_field r)
    unfolding number_field
    number_field-Keeps field size next_field set keep n r k h =
        elim (Bool-cases (next_field == field)) [
          | inr e ↦ rw e (n, k, h)
          | inl e ↦ rw e (
              continue-Keeps (Word 1) (read_item size r) _ (read_item-Keeps size r k h)
                (λ v r' w k' h'.
                  read_item-Keeps 1 (record r' { cookie = set r'.cookie v }) k'
                    (keep r'.cookie v w h')))
        ]

    text_field-Keeps :
        (field next_field : ℕ) (set : VCookie → Bytes → VCookie)
        → ((c : VCookie) (s : Bytes) → Text s → P c → P (set c s))
        → Word 1 next_field
        → (r : Reader) → Rest r.rest
        → P r.cookie
        → Keeps (Word 1) (text_field field set next_field r)
    unfolding text_field
    text_field-Keeps field next_field set keep n r k h = elim (Bool-cases (next_field == field)) [
      | inr e ↦ rw e (n, k, h)
      | inl e ↦ rw e (
          continue-Keeps (Word 1) (read_text_item r) _ (read_text_item-Keeps r k h) (λ s r' w k' h'.
            read_item-Keeps 1 (record r' { cookie = set r'.cookie s }) k' (keep r'.cookie s w h')))
    ]

    read_purchase_ids-Keeps :
        (left : ℕ) (r : Reader)
        → Rest r.rest
        → P r.cookie
        → Keeps Anything (read_purchase_ids left r)
    unfolding read_purchase_ids
    read_purchase_ids-Keeps zero r k h = (tt, k, h)
    read_purchase_ids-Keeps (suc left) r k h =
        continue-Keeps Anything (read_text_item r) _ (read_text_item-Keeps r k h) (λ s r' w k' h'.
          read_purchase_ids-Keeps left (record r' { cookie = (set_purchase_id r'.cookie s).0 }) k'
            (kept.purchase_id r'.cookie s w h'))

    purchase_field-Keeps :
        (next_field : ℕ) → Word 1 next_field → KeepsAll (Word 1) (purchase_field next_field)
    unfolding purchase_field
    purchase_field-Keeps next_field n r k h = elim (Bool-cases (next_field == 11)) [
      | inr e ↦ rw e (n, k, h)
      | inl e ↦ rw e (
          continue-Keeps (Word 1) (read_item 1 r) _ (read_item-Keeps 1 r k h) (λ cnt r1 w k1 h1.
            continue-Keeps (Word 1) (read_purchase_ids cnt r1) _
              (read_purchase_ids-Keeps cnt r1 k1 h1) (λ u r2 w2 k2 h2. read_item-Keeps 1 r2 k2 h2)))
    ]

    pub read_fields-Keeps : KeepsAll (Word 1) read_fields
    unfolding read_fields
    read_fields-Keeps = bind-Keeps _ _ _ (read_item-Keeps 1) λ n0 w0.
        bind-Keeps _ _ _ (number_field-Keeps 1 8 n0 _ kept.first_hit_time_gmt w0) λ n1 w1.
          bind-Keeps _ _ _ (number_field-Keeps 2 8 n1 _ kept.last_hit_time_gmt w1) λ n2 w2.
            bind-Keeps _ _ _ (number_field-Keeps 3 8 n2 _ kept.last_hit_time_visitor_local w2)
              λ n3 w3.
                bind-Keeps _ _ _ (number_field-Keeps 4 4 n3 _ kept.last_visit_num w3) λ n4 w4.
                  bind-Keeps _ _ _ (number_field-Keeps 5 8 n4 _ kept.last_purchase_time_gmt w4)
                    λ n5 w5.
                      bind-Keeps _ _ _ (text_field-Keeps 6 n5 _ kept.first_hit_referrer w5) λ n6 w6.
                        bind-Keeps _ _ _ (text_field-Keeps 7 n6 _ kept.first_hit_page_url w6)
                          λ n7 w7.
                            bind-Keeps _ _ _ (text_field-Keeps 8 n7 _ kept.first_hit_pagename w7)
                              λ n8 w8.
                                bind-Keeps _ _ _
                                  (number_field-Keeps 9 4 n8 _ kept.last_purchase_num w8)
                                  λ n9 w9.
                                    bind-Keeps _ _ _
                                      (text_field-Keeps 10 n9 _ kept.merchandising w9)
                                      λ n10 w10. purchase_field-Keeps n10 w10

    pub jump-Keeps :
        (buffer : Bytes) (offset : ℕ) → Rest buffer → KeepsAll Anything (jump buffer offset)
    unfolding jump
    jump-Keeps buffer offset b r k h =
        elim (Bool-cases (ltb offset (length buffer - length r.rest))) [
          | inl e ↦ rw e h
          | inr e ↦ rw e (tt, kept.behind offset buffer b, h)
        ]

    pub read_unchecked-Keeps : KeepsAll (Anything {A = ℕ}) read_unchecked
    unfolding read_unchecked
    read_unchecked-Keeps r k h = by_word (read_word 1 r.rest) refl
      where
        by_word :
            (o : Option (ℕ × Bytes))
            → read_word 1 r.rest ≡ o
            → Keeps (Anything {A = ℕ}) (or_zero o r)
        by_word none e = (tt, k, h)
        by_word (some (v, rest)) e = (tt, (kept.word 1 r.rest rest v k e).1, h)

    module _ (Between : ℕ → ℕ → ℕ → ℕ → VCookie → Type 0) (stored : IsStored Between) where
      store_element_at-Keeps :
          {B : Type 0} (W : B → Type 0) (rid cnt left v : ℕ) (e : RelVar) (r : Reader)
          (f : ℕ → Parse B)
          → Text e.value
          → Word 8 e.timestamp
          → Word 1 e.revision
          → P r.cookie
          → Between rid cnt (suc left) v r.cookie
          → ((v' : ℕ) (c : VCookie)
              → P c
              → Between rid cnt left v' c
              → Keeps W (f v' (record r { cookie = c })))
          → Keeps W (continue (store_element_at rid cnt v e r) f)
      unfolding store_element_at
      store_element_at-Keeps W rid cnt left v e r f t u w h b go =
          elim (Bool-cases (v == var_not_set)) [
            | inl n ↦
                let (p, b') = stored.first rid cnt left r.cookie e t u w h (
                  subst (λ (x : ℕ). Between rid cnt (suc left) x r.cookie)
                    ((==_iff v var_not_set).0 n) b) in
                rw n (go _ _ p b')
            | inr n ↦
                let (p, b') =
                  stored.later rid cnt left v r.cookie e t u w h (==_false→ne v var_not_set n) b in
                rw n (go v _ p b')
          ]

      pub read_elements-Keeps :
          (rid cnt left v : ℕ) (r : Reader)
          → Rest r.rest
          → P r.cookie
          → Between rid cnt left v r.cookie
          → Keeps Anything (read_elements rid cnt left v r)
      unfolding read_elements read_item read_text_item
      read_elements-Keeps rid cnt zero v r k h b = (tt, k, h)
      read_elements-Keeps rid cnt (suc left) v r k h b =
          or_stop-continue-Keeps Anything (read_text r.rest) r _ h λ value rest1 e1.
            let (t, k1) = kept.text r.rest rest1 value k e1 in
            or_stop-continue-Keeps Anything (read_word 8 rest1) (record r { rest = rest1 }) _ h
              λ timestamp rest2 e2.
                let (u, k2) = kept.word 8 rest1 rest2 timestamp k1 e2 in
                or_stop-continue-Keeps Anything (read_word 1 rest2) (record r { rest = rest2 }) _ h
                  λ revision rest3 e3.
                    let (w, k3) = kept.word 1 rest2 rest3 revision k2 e3 in
                    store_element_at-Keeps Anything rid cnt left v
                      (record { value = value; timestamp = timestamp; revision = revision })
                      (record r { rest = rest3 }) _ t u w h b
                      λ v' c h' b'.
                        read_elements-Keeps rid cnt left v' (record { rest = rest3; cookie = c }) k3
                          h' b'
