-- ===== src/Codec/Total.antt =====
-- Deserialize returns, whatever the buffer holds, and keeps what each of its steps keeps.
use elevator.Base.{
  ◌∷◌, [], Option-cases, ℕ, zero, suc, ◌≤◌, ◌<◌, ◌≡◌, refl, arith, Bool, true, false, none, some,
  ◌==◌, ltb, length, Bytes, Bool-cases, inl, inr, read_word, read_text, ==_false→ne,
  length-read_word, length-drop, done,
}
use elevator.Cookie.{VCookie}
use elevator.Cookie.Vars.{var_not_set, invalid_rid}
use elevator.Codec.Read.{
  Reader, Parse, Outcome, continue, finish, deserialize, next, stop, out_of_fuel, read_item,
  read_elements, read_vars, read_body, read_all,
}
use elevator.Codec.Invariant.{
  IsKept, IsStored, Keeps, KeepsAll, Anything, bind-Keeps, or_stop-continue-Keeps, read_item-Keeps,
  read_fields-Keeps, jump-Keeps, read_unchecked-Keeps, read_elements-Keeps,
}

length-read_text : (bs rest s : Bytes) → read_text bs ≡ some (s, rest) → length rest ≤ length bs
unfolding read_text
length-read_text [] rest s e = absurd (cc e)
length-read_text (b ∷ bs) rest s e = elim (Bool-cases (b == 0)) [
  | inl n ↦ let k : some ([], bs) ≡ some (s, rest) = rw n at e in ground (arith, k)
  | inr n ↦ elim (Option-cases (read_text bs)) [
    | inl none_read ↦ absurd (let k : none ≡ some (s, rest) = rw (n, none_read) at e in cc k)
    | inr ((s', rest'), read) ↦
        let k : some (b ∷ s', rest') ≡ some (s, rest) = rw (n, read) at e in
        ground (arith, k, length-read_text bs rest' s' read)
  ]
]

-- No more than `n` bytes are left.
abbrev AtMost : (Bytes → Type 0) → ℕ → Bytes → Type 0
AtMost Rest n rest = Rest rest × (length rest ≤ n)

module _ (P : VCookie → Type 0) (Rest : Bytes → Type 0) (Word : ℕ → ℕ → Type 0)
    (Text : Bytes → Type 0) where
  IsKept-AtMost : (n : ℕ) → IsKept P Rest Word Text → IsKept P (AtMost Rest n) Word Text
  IsKept-AtMost n kept = record {
    word = λ size rest rest' v k e.
        let (w, k') = kept.word size rest rest' v k.0 e in
        (w, (k', omega (arith, k.1, length-read_word size v rest rest' e)));
    text = λ rest rest' s k e.
        let (t, k') = kept.text rest rest' s k.0 e in
        (t, (k', omega (arith, k.1, length-read_text rest rest' s e)));
    behind = λ m rest k. (kept.behind m rest k.0, omega (arith, k.1, length-drop m rest));
    first_hit_time_gmt = kept.first_hit_time_gmt;
    last_hit_time_gmt = kept.last_hit_time_gmt;
    last_hit_time_visitor_local = kept.last_hit_time_visitor_local;
    last_visit_num = kept.last_visit_num;
    last_purchase_time_gmt = kept.last_purchase_time_gmt;
    first_hit_referrer = kept.first_hit_referrer;
    first_hit_page_url = kept.first_hit_page_url;
    first_hit_pagename = kept.first_hit_pagename;
    last_purchase_num = kept.last_purchase_num;
    merchandising = kept.merchandising;
    purchase_id = kept.purchase_id;
  }

  leave-AtMost :
      (n : ℕ) (o : Outcome (Unit {0})) (f : Unit {0} → Parse (Unit {0}))
      → Keeps P (AtMost Rest n) Word Text Anything o
      → ((r : Reader)
          → Rest r.rest
          → length r.rest ≤ n
          → P r.cookie
          → Keeps P Rest Word Text Anything (f tt r))
      → Keeps P Rest Word Text Anything (continue o f)
  leave-AtMost n (next u r) f (v, (k, b), h) go = go r k b h
  leave-AtMost n (stop c) f h go = h
  leave-AtMost n out_of_fuel f h go = h

  module _ (kept : IsKept P Rest Word Text) (Between : ℕ → ℕ → ℕ → ℕ → VCookie → Type 0)
      (stored : IsStored P Rest Word Text Between) where
    -- Each round reads six bytes at least.
    read_vars-Keeps :
        (fuel rid : ℕ) (r : Reader)
        → length r.rest < fuel
        → Word 2 rid
        → Rest r.rest
        → P r.cookie
        → Keeps P Rest Word Text Anything (read_vars fuel rid r)
    unfolding read_vars read_item
    read_vars-Keeps zero rid r short w k h = absurd (omega arith)
    read_vars-Keeps (suc fuel) rid r short w k h = elim (Bool-cases (rid == invalid_rid)) [
      | inl e ↦ rw e (tt, k, h)
      | inr e ↦
          let ne = ==_false→ne rid invalid_rid e in
          rw e (
            or_stop-continue-Keeps P Rest Word Text Anything (read_word 4 r.rest) r _ h
              λ cnt rest1 e1.
                let (w1, k1) = kept.word 4 r.rest rest1 cnt k e1 in
                let n1 = length-read_word 4 cnt r.rest rest1 e1 in
                let r1 = record r { rest = rest1 } in
                leave-AtMost (length rest1) (read_elements rid cnt cnt var_not_set r1) _
                  (read_elements-Keeps P (AtMost Rest (length rest1)) Word Text
                    (IsKept-AtMost (length rest1) kept) Between (stored_at (length rest1)) rid cnt
                    cnt var_not_set r1 (k1, omega arith) h
                    (stored.start rid cnt r.cookie w ne w1 h))
                  λ r2 k2 n2 h2.
                    or_stop-continue-Keeps P Rest Word Text Anything (read_word 2 r2.rest) r2 _ h2
                      λ rid' rest3 e3.
                        let (w3, k3) = kept.word 2 r2.rest rest3 rid' k2 e3 in
                        let n3 = length-read_word 2 rid' r2.rest rest3 e3 in
                        read_vars-Keeps fuel rid' (record r2 { rest = rest3 })
                          (omega (arith, n1, n2, n3)) w3 k3 h2)
    ]
      where
        stored_at : (n : ℕ) → IsStored P (AtMost Rest n) Word Text Between
        stored_at n = record { start = stored.start; first = stored.first; later = stored.later }

module _ (P : VCookie → Type 0) (Rest : Bytes → Type 0) (Word : ℕ → ℕ → Type 0)
    (Text : Bytes → Type 0) (kept : IsKept P Rest Word Text)
    (Between : ℕ → ℕ → ℕ → ℕ → VCookie → Type 0) (stored : IsStored P Rest Word Text Between)
    (buffer : Bytes) (whole : Rest buffer) where
  abbrev Left : Bytes → Type 0
  Left = AtMost Rest (length buffer)

  kept_within : IsKept P Left Word Text
  kept_within = IsKept-AtMost P Rest Word Text (length buffer) kept

  stored_within : IsStored P Left Word Text Between
  stored_within = record { start = stored.start; first = stored.first; later = stored.later }

  read_body-Keeps : KeepsAll P Left Word Text Anything (read_body buffer)
  unfolding read_body
  read_body-Keeps =
      bind-Keeps P Left Word Text Anything _ _ (read_item-Keeps P Left Word Text kept_within 4)
        λ offset w.
          bind-Keeps P Left Word Text Anything _ _ (read_fields-Keeps P Left Word Text kept_within)
            λ last w1.
              bind-Keeps P Left Word Text {V = Anything} Anything _ _
                (jump-Keeps P Left Word Text kept_within buffer offset (whole, omega arith))
                λ u w2.
                  bind-Keeps P Left Word Text Anything _ _
                    (read_item-Keeps P Left Word Text kept_within 2)
                    λ rid w3 r k h.
                      read_vars-Keeps P Left Word Text kept_within Between stored_within
                        (suc (length buffer)) rid r (omega (arith, k.1)) w3 k h

  read_all-Keeps : KeepsAll P Left Word Text Anything (read_all buffer)
  unfolding read_all
  read_all-Keeps =
      bind-Keeps P Left Word Text Anything _ _ (read_unchecked-Keeps P Left Word Text kept_within)
        λ version v0.
          bind-Keeps P Left Word Text Anything _ _
            (read_unchecked-Keeps P Left Word Text kept_within)
            λ compatible v1.
              bind-Keeps P Left Word Text Anything _ _
                (read_unchecked-Keeps P Left Word Text kept_within)
                λ flag v2 r k h. elim (Bool-cases (ltb 0 compatible)) [
                  | inl e ↦ rw e h
                  | inr e ↦ rw e (read_body-Keeps r k h)
                ]

  -- Deserialize returns, and the cookie has the property whatever it answers.
  pub deserialize-Keeps :
      (c : VCookie)
      → P c
      → (answer : Bool) × (c' : VCookie) × (deserialize c buffer ≡ done (answer, c')) × P c'
  unfolding deserialize
  deserialize-Keeps c h =
      by_outcome (read_all buffer (record { rest = buffer; cookie = c }))
        (read_all-Keeps (record { rest = buffer; cookie = c }) (whole, omega arith) h)
    where
      by_outcome :
          (o : Outcome (Unit {0}))
          → Keeps P Left Word Text Anything o
          → (answer : Bool) × (c' : VCookie) × (finish o ≡ done (answer, c')) × P c'
      by_outcome (next u r) (v, k, p) = (true, r.cookie, refl, p)
      by_outcome (stop d) p = (false, d, refl, p)
      by_outcome out_of_fuel p = absurd p
