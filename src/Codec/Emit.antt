-- ===== src/Codec/Emit.antt =====
-- Serialize writes the format.
use elevator.Base.{
  get_elem?, ℕ, zero, suc, ◌+◌, ◌-◌, ◌%◌, ◌^◌, ◌<◌, ◌≡◌, ◌≢◌, refl, ap, ◌∙◌, sym, arith, Bool, true,
  false, List, [], ◌∷◌, ◌++◌, ◌==◌, if◌then◌else◌, length, take, drop, done, some, Bytes, word, All,
  All-get_or, Bool-cases, inl, inr, ltb, lt→ltb, ne→==_false, lt→leb_false, select, get_or, not,
}
use mathlib.Core.List.{append_assoc}
use elevator.Cookie.{VCookie}
use elevator.Cookie.Vars.{
  RelVar, RelVarImpl, VarTable, is_empty, invalid_rid, impl, impl_at, key_at, blank_impl,
}
use elevator.Cookie.Vars.Read.{is_set, scan, get_set_var, get_first_set_var, get_var_by_id}
use elevator.Cookie.Vars.View.{view, IsWellFormed}
use native.Mathlib.Numerals.{add-one}
use elevator.Cookie.Vars.Search.{key_at-view, length-view}
use elevator.Cookie.Vars.Refine.{sort_in_range}
use elevator.Cookie.Vars.Walk.{
  drop-view, drop_all, get_next_set_var_self, get_var_element_count_self,
}
use elevator.Codec.Write.{
  add_item, add_text, add_field, add_text_field, add_texts, add_purchase_ids, add_fields,
  add_element, add_elements, add_vars, serialize,
}
use elevator.Codec.Format.{
  document, field_bytes, Ahead, flat, number, text, texts, purchases, fields, elements_format,
  vars_format,
}

byte_word : (v : ℕ) → v < 256 → word 1 v ≡ v ∷ []
unfolding word
byte_word v h = ap (λ (b : ℕ). b ∷ []) (omega arith)

-- Each writer of a field appends its part of the format.
add_field-number :
    (field size v : ℕ) (b : Bytes) (s : Ahead)
    → field < 256
    → add_field 1 size b field v ++ flat s ≡ b ++ flat (number field size v s)
unfolding add_field add_item number
add_field-number field size v b s h = elim (Bool-cases (v == 0)) [
  | inl e ↦ rw e
  | inr n ↦ rw (n, byte_word field h) (simp append_assoc)
]

add_text_field-text :
    (field : ℕ) (v : Bytes) (b : Bytes) (s : Ahead)
    → field < 256
    → add_text_field b field v ++ flat s ≡ b ++ flat (text field v s)
unfolding add_text_field add_text add_item text
add_text_field-text field v b s h = elim (Bool-cases (is_empty v)) [
  | inl e ↦ rw e
  | inr n ↦ rw (n, byte_word field h) (simp append_assoc)
]

add_texts-texts : (ids : List Bytes) (b t : Bytes) → add_texts b ids ++ t ≡ b ++ texts ids t
unfolding add_texts add_text
add_texts-texts [] b t = refl
add_texts-texts (p ∷ ps) b t = rw (add_texts-texts ps) (simp append_assoc)

take_all {ℓ} : {A : Type ℓ} (xs : List A) → take (length xs) xs ≡ xs
take_all [] = refl
take_all (x ∷ xs) = ap (λ t. x ∷ t) (take_all xs)

add_ids :
    (ids : List Bytes) (n : ℕ) (b : Bytes) (s : Ahead)
    → n ≡ length ids
    → n < 256
    → (if ltb 0 n then add_texts (add_field 1 1 b 11 n) (take n ids) else b) ++ flat s
      ≡ b ++ flat (purchases ids s)
unfolding purchases add_field add_item
add_ids [] n b s e h = rw e
add_ids (p ∷ ps) n b s e h =
    rw
      (
        lt→ltb 0 n (omega arith),
        add_texts-texts,
        ne→==_false n 0 (omega arith),
        byte_word n h,
        byte_word 11 (omega arith),
        e,
        take_all ps,
      )
      (simp append_assoc)

add_purchase_ids-purchases :
    (c : VCookie) (b : Bytes) (s : Ahead)
    → length c.purchase_ids < 256
    → add_purchase_ids c b ++ flat s ≡ b ++ flat (purchases c.purchase_ids s)
unfolding add_purchase_ids
add_purchase_ids-purchases c b s h =
    add_ids c.purchase_ids (length c.purchase_ids % 2 ^ 32 % 2 ^ 8) b s (omega arith) (omega arith)

-- The fields that follow the time of the last hit.
pub add_fields-fields :
    (c : VCookie) (save : Bool) (b : Bytes) (s : Ahead)
    → length c.purchase_ids < 256
    → add_fields c save b ++ flat s ≡ b ++ flat (fields c save s)
unfolding add_fields fields
add_fields-fields c save b s h =
    add_purchase_ids-purchases c _ s h
    ∙ add_text_field-text 10 c.merchandising _ _ (omega arith)
    ∙ add_field-number 9 4 c.last_purchase_num _ _ (omega arith)
    ∙ add_text_field-text 8 c.first_hit_pagename _ _ (omega arith)
    ∙ add_text_field-text 7 c.first_hit_page_url _ _ (omega arith)
    ∙ add_text_field-text 6 c.first_hit_referrer _ _ (omega arith)
    ∙ add_field-number 5 8 c.last_hit_time_gmt _ _ (omega arith)
    ∙ add_field-number 4 4 c.last_visit_num _ _ (omega arith)
    ∙ add_field-number 3 8 c.last_hit_time_gmt _ _ (omega arith)
    ∙ last_hit save _ _
    ∙ add_field-number 1 8 c.first_hit_time_gmt b _ (omega arith)
  where
    last_hit :
        (save : Bool) (b' : Bytes) (s' : Ahead)
        → (if save then add_field 1 8 b' 2 c.last_hit_time_gmt else b') ++ flat s'
          ≡ b' ++ flat (number 2 8 (if save then c.last_hit_time_gmt else 0) s')
    last_hit true b' s' = add_field-number 2 8 c.last_hit_time_gmt b' s' (omega arith)
    last_hit false b' s' = unfold number in refl

pub get_elem?-drop :
    (es : List RelVar) (i : ℕ) (e : RelVar) (rest : List RelVar)
    → drop i es ≡ e ∷ rest
    → (get_elem? es i ≡ some e) × (drop (suc i) es ≡ rest)
get_elem?-drop [] zero e rest h = cc
get_elem?-drop [] (suc i) e rest h = cc
get_elem?-drop (x ∷ xs) zero e rest h = (cc, cc)
get_elem?-drop (x ∷ xs) (suc i) e rest h = get_elem?-drop xs i e rest h

-- The elements from the `i`-th on.
add_elements-format :
    (t : VarTable) (vid i : ℕ) (rest : List RelVar) (b : Bytes) (more : Bytes)
    → vid < length t.rel_var
    → drop i (impl t vid).var ≡ rest
    → (b' : Bytes) × (add_elements t vid (length rest) i b ≡ done b')
      × (b' ++ more ≡ b ++ elements_format rest more)
unfolding add_elements add_element get_var_by_id elements_format add_item add_text
add_elements-format t vid i [] b more hv h = (b, refl, refl)
add_elements-format t vid i (e ∷ rest) b more hv h =
    let (got, tail) = get_elem?-drop (impl t vid).var i e rest h in
    let next = add_item 1 (add_item 8 (add_text b e.value) e.timestamp) e.revision in
    let (b', run, eq) = add_elements-format t vid (suc i) rest next more hv tail in
    (b', rw (lt→leb_false (length t.rel_var) vid hv, got) run, eq ∙ simp append_assoc)

-- The set variables, in order.
abbrev pub set_vars : List RelVarImpl → List RelVarImpl
set_vars es = select is_set es

add_field_rid :
    (b : Bytes) (rid cnt : ℕ) → cnt ≢ 0 → add_field 2 4 b rid cnt ≡ b ++ (word 2 rid ++ word 4 cnt)
unfolding add_field add_item
add_field_rid b rid cnt h = rw (ne→==_false cnt 0 h) (append_assoc b (word 2 rid) (word 4 cnt))

-- From a position on, the loop over the relation ids writes the set variables that are left.
module _ (t : VarTable) (w : IsWellFormed t)
    (valid : All (λ x. x.relation_id ≢ invalid_rid) (view t)) where
  pub add_vars-format :
      (left pos fuel : ℕ) (b : Bytes)
      → pos + left ≡ length t.rel_var_sort
      → left < fuel
      → add_vars fuel t (scan t is_set left pos) b
        ≡ done (b ++ vars_format (set_vars (drop pos (view t))))
  unfolding add_vars scan vars_format
  add_vars-format zero pos zero b h f = absurd (omega arith)
  add_vars-format zero pos (suc fuel) b h f =
      rw (drop_all (view t) pos (omega (arith, length-view t))) (unfold add_item in refl)
  add_vars-format (suc left) pos zero b h f = absurd (omega arith)
  add_vars-format (suc left) pos (suc fuel) b h f = elim (Bool-cases (is_set (impl_at t pos))) [
    | inr n ↦
        rw (n, add-one pos, drop-view t pos (omega arith), n)
          (add_vars-format left (suc pos) (suc fuel) b (omega arith) (omega arith))
    | inl y ↦
        let (b', run, eq) = elements y in
        rw
          (
            y,
            get_var_element_count_self t pos w (omega arith) y,
            ne→==_false (key_at t pos) invalid_rid here_valid,
            add_field_rid b (key_at t pos) _ (some_elements y),
            run,
            get_next_set_var_self t pos w (omega arith),
            next_left,
            drop-view t pos (omega arith),
            y,
          )
          (add_vars-format left (suc pos) fuel b' (omega arith) (omega arith)
            ∙ ap done (eq ∙ simp append_assoc))
  ]
    where
      here_valid : key_at t pos ≢ invalid_rid
      here_valid e =
          All-get_or (λ (x : RelVarImpl). x.relation_id ≢ invalid_rid) (view t) pos blank_impl valid
            (omega (arith, length-view t)) (sym (key_at-view t pos (omega arith)) ∙ e)

      next_left : length t.rel_var_sort - suc pos ≡ left
      next_left = omega arith

      some_elements : is_set (impl_at t pos) ≡ true → length (impl_at t pos).var ≢ 0
      some_elements y = nonempty (impl_at t pos).var y
        where
          nonempty : (l : List RelVar) → not (is_empty l) ≡ true → length l ≢ 0
          nonempty [] e = cc
          nonempty (x ∷ xs) e = omega arith

      elements :
          is_set (impl_at t pos) ≡ true
          → (b' : Bytes) × (add_elements t
                (get_or t.rel_var_sort pos 0)
                (length (impl_at t pos).var)
                0
                (b ++ (word 2 (key_at t pos) ++ word 4 (length (impl_at t pos).var)))
              ≡ done b')
            × (b' ++ vars_format (set_vars (drop (suc pos) (view t)))
                ≡ (b ++ (word 2 (key_at t pos) ++ word 4 (length (impl_at t pos).var)))
                  ++ elements_format
                      (impl_at t pos).var
                      (vars_format (set_vars (drop (suc pos) (view t)))))
      elements y =
          add_elements-format t (get_or t.rel_var_sort pos 0) 0 (impl_at t pos).var _ _
            (sort_in_range t w pos (omega arith)) refl

pub fields_tail :
    (c : VCookie) (save : Bool) (t : Bytes)
    → length c.purchase_ids < 256
    → flat (fields c save (0, t)) ≡ flat (fields c save (0, [])) ++ t
fields_tail c save t h =
    sym (add_fields-fields c save [] (0, t) h)
    ∙ sym (append_assoc (add_fields c save []) (0 ∷ []) t)
    ∙ ap (λ (l : Bytes). l ++ t) (add_fields-fields c save [] (0, []) h)

-- On a cookie with a well-formed table, no variable named INVALID_RID, fewer than 256 purchase ids
-- and fields below 4 GiB, Serialize ends, and writes the fields and the set variables in the order of
-- their ids, behind a header with the offset of the variables.
pub serialize-document :
    (c : VCookie) (save : Bool)
    → IsWellFormed c.table
    → All (λ x. x.relation_id ≢ invalid_rid) (view c.table)
    → length c.purchase_ids < 256
    → 7 + length (field_bytes c save) < 2 ^ 32
    → serialize c save
      ≡ done (
          document
            (7 + length (field_bytes c save))
            (field_bytes c save)
            (vars_format (set_vars (view c.table))))
unfolding serialize add_item word get_first_set_var get_set_var
serialize-document c save w valid few fits =
    rw (buffer, small, whole)
      (add_vars-format c.table w valid (length c.table.rel_var_sort) 0 _ _ (omega arith)
        (omega arith))
  where
    buffer :
        add_fields c save (0 ∷ 0 ∷ 0 ∷ 3 ∷ 0 ∷ 0 ∷ 0 ∷ []) ++ (0 ∷ [])
        ≡ (0 ∷ 0 ∷ 0 ∷ 3 ∷ 0 ∷ 0 ∷ 0 ∷ []) ++ field_bytes c save
    buffer = add_fields-fields c save _ (0, []) few

    whole : length c.table.rel_var_sort - 0 ≡ length c.table.rel_var_sort
    whole = omega arith

    small :
        length ((0 ∷ 0 ∷ 0 ∷ 3 ∷ 0 ∷ 0 ∷ 0 ∷ []) ++ field_bytes c save) % 2 ^ 32
        ≡ 7 + length (field_bytes c save)
    small = omega arith
