-- ===== src/Codec/RoundTrip.antt =====
-- Deserialize after Serialize.
use elevator.Base.{
  ℕ, suc, ◌+◌, ◌-◌, ◌^◌, ◌≤◌, ◌<◌, ◌≡◌, ap, ◌∙◌, sym, arith, Bool, true, List, [], ◌∷◌, ◌++◌,
  if◌then◌else◌, length, drop, Bytes, word, length-word, read_word, All, All-map_pred, select, map,
  Run, length-append, Bool-cases, inl, inr, le→ltb_false, drop-length,
}
use mathlib.Core.List.{append_assoc}
use elevator.Cookie.{VCookie, clear_flags}
use elevator.Cookie.Vars.{RelVarImpl}
use elevator.Cookie.Vars.Read.{is_set}
use elevator.Cookie.Vars.View.{view, Ascending, Ascending-weaken, IsWellFormed}
use elevator.Cookie.Vars.Refine.{Holds}
use elevator.Cookie.Purchases.Order.{Distinct}
use elevator.Codec.Write.{serialize}
use elevator.Codec.Read.{
  deserialize, read_all, read_body, read_unchecked, read_fields, read_vars, read_item, jump, next,
  finish,
}
use elevator.Codec.Format.{vars_format, document, field_bytes}
use elevator.Codec.Emit.{serialize-document, fields_tail, set_vars}
use elevator.Codec.Absorb.{at, step, IsStorable, fill, read_item-word, read_fields-format}
use elevator.Codec.AbsorbElements.{VarFits, loaded, Ends}
use elevator.Codec.AbsorbVars.{
  first_rid, behind_rid, vars_format-split, vars_format-longer, read_vars-format,
}
use elevator.Codec.Members.{IsBlank}
use elevator.Codec.Fill.{fill_lem}

Ascending-select :
    (es : List RelVarImpl) (lo : ℕ) → Ascending lo es → Ascending lo (select is_set es)
Ascending-select [] lo a = tt
Ascending-select (x ∷ xs) lo a = elim (Bool-cases (is_set x)) [
  | inl y ↦ rw y (a.0, a.1, Ascending-select xs (suc x.relation_id) a.2)
  | inr n ↦ rw n (
      Ascending-weaken (select is_set xs) (suc x.relation_id) lo (let p = a.0 in omega arith)
        (Ascending-select xs (suc x.relation_id) a.2))
]

All-select : (es : List RelVarImpl) → All VarFits es → All VarFits (select is_set es)
All-select [] h = tt
All-select (x ∷ xs) (f, h) = elim (Bool-cases (is_set x)) [
  | inl y ↦ rw y (f, All-select xs h)
  | inr n ↦ rw n (All-select xs h)
]

select-passes : (es : List RelVarImpl) → All (λ x. is_set x ≡ true) (select is_set es)
select-passes [] = tt
select-passes (x ∷ xs) = elim (Bool-cases (is_set x)) [
  | inl y ↦ rw y (y, select-passes xs)
  | inr n ↦ rw n (select-passes xs)
]

-- What Serialize can write so that it is read back: members in the range of their types, texts
-- without the byte 0, five distinct purchase ids at most, a well-formed table whose elements are
-- not empty, and less than 4 GiB.
pub record CanSave (c : VCookie) (save : Bool) : Type 0 where
  pub storable : IsStorable c
  pub well_formed : IsWellFormed c.table
  pub vars : All VarFits (view c.table)
  pub distinct : Distinct c.purchase_ids
  pub five : length c.purchase_ids ≤ 5
  pub size : 7 + length (field_bytes c save) < 2 ^ 32

-- A cookie with nothing in it, into which one is read.
pub record CanLoad (c0 : VCookie) (save : Bool) : Type 0 where
  pub blank : IsBlank c0
  pub no_hit : save ≡ true → c0.last_hit_time_gmt ≡ 0
  pub no_table : Holds c0.table []

-- `c'` is `c0` with the contents of `c`, flags aside. The two times that have no getter of their
-- own come back as the time of the last hit, and each variable comes back marked as modified.
pub record IsCopy (c : VCookie) (save : Bool) (c0 c' : VCookie) : Type 0 where
  pub members : clear_flags c' ≡ record (clear_flags c0) {
    first_hit_time_gmt = c.first_hit_time_gmt;
    last_hit_time_gmt = if save then c.last_hit_time_gmt else c0.last_hit_time_gmt;
    last_hit_time_visitor_local = c.last_hit_time_gmt;
    last_visit_num = c.last_visit_num;
    last_purchase_time_gmt = c.last_hit_time_gmt;
    first_hit_referrer = c.first_hit_referrer;
    first_hit_page_url = c.first_hit_page_url;
    first_hit_pagename = c.first_hit_pagename;
    last_purchase_num = c.last_purchase_num;
    merchandising = c.merchandising;
    purchase_ids = c.purchase_ids;
    table = c'.table;
  }
  pub variables : Holds c'.table (map loaded (set_vars (view c.table)))

-- What Serialize writes.
abbrev pub saved_bytes : VCookie → Bool → Bytes
saved_bytes c save =
    document (7 + length (field_bytes c save)) (field_bytes c save)
      (vars_format (set_vars (view c.table)))

module _ (c : VCookie) (save : Bool) (c0 : VCookie) (s : CanSave c save) (l : CanLoad c0 save) where
  -- The relation variables, once the fields are read.
  read :
      Ends
        (fill c save c0)
        (read_vars
          (suc (length (saved_bytes c save)))
          (first_rid (set_vars (view c.table)))
          (at (behind_rid (set_vars (view c.table))) (fill c save c0)))
        []
        (map loaded (set_vars (view c.table)))
  read =
      read_vars-format (set_vars (view c.table)) (suc (length (saved_bytes c save))) 0
        (fill c save c0) (fill c save c0).table (fill c save c0).modified
        (fill c save c0).rel_var_modified [] enough
        (Ascending-select (view c.table) 0 s.well_formed.ascending)
        (All-select (view c.table) s.vars) (select-passes (view c.table)) tt
        (rw filled_table l.no_table)
    where
      filled_table : (fill c save c0).table ≡ c0.table
      filled_table =
          unfold clear_flags in
          ap (λ (r : VCookie). r.table) (fill_lem c save c0 l.blank l.no_hit s.distinct s.five)

      enough : length (set_vars (view c.table)) < suc (length (saved_bytes c save))
      enough = omega (
        arith,
        vars_format-longer (set_vars (view c.table)),
        length-append (word 4 (7 + length (field_bytes c save)))
            (field_bytes c save ++ vars_format (set_vars (view c.table))),
        length-append (field_bytes c save) (vars_format (set_vars (view c.table))),
      )

  result : VCookie
  result = record (fill c save c0) {
    table = read.table;
    modified = read.flag;
    rel_var_modified = read.var_flag;
  }

  jumped :
      jump
        (saved_bytes c save)
        (7 + length (field_bytes c save))
        (at (vars_format (set_vars (view c.table))) (fill c save c0))
      ≡ next tt (at (vars_format (set_vars (view c.table))) (fill c save c0))
  unfolding jump
  jumped =
      rw (le→ltb_false (7 + length (field_bytes c save)) _ not_past)
        (ap (λ (b : Bytes). next tt (at b (fill c save c0))) behind)
    where
      vars : Bytes
      vars = vars_format (set_vars (view c.table))

      front : Bytes
      front = 0 ∷ 0 ∷ 0 ∷ (word 4 (7 + length (field_bytes c save)) ++ field_bytes c save)

      whole : saved_bytes c save ≡ front ++ vars
      whole =
          ap (λ (b : Bytes). 0 ∷ 0 ∷ 0 ∷ b)
            (sym
              (append_assoc (word 4 (7 + length (field_bytes c save))) (field_bytes c save) vars))

      length-front : length front ≡ 7 + length (field_bytes c save)
      length-front = omega (
        arith,
        length-word 4 (7 + length (field_bytes c save)),
        length-append (word 4 (7 + length (field_bytes c save))) (field_bytes c save),
      )

      not_past : length (saved_bytes c save) - length vars ≤ 7 + length (field_bytes c save)
      not_past =
          omega (arith, length-front, ap (λ (b : Bytes). length b) whole, length-append front vars)

      behind : drop (7 + length (field_bytes c save)) (saved_bytes c save) ≡ vars
      behind =
          ap (λ (n : ℕ). drop n (saved_bytes c save)) (sym length-front)
          ∙ ap (drop (length front)) whole
          ∙ drop-length front vars

  parsed : read_all (saved_bytes c save) (at (saved_bytes c save) c0) ≡ next tt (at [] result)
  unfolding read_all read_body read_unchecked result read_word
  parsed =
      step _ (read_item-word 4 (7 + length (field_bytes c save)) _ c0 s.size)
        (step _ fields_read (step _ jumped (step _ rid_read read.ends)))
    where
      vars : Bytes
      vars = vars_format (set_vars (view c.table))

      fields_read :
          read_fields (at (field_bytes c save ++ vars) c0) ≡ next 0 (at vars (fill c save c0))
      fields_read =
          ap (λ (b : Bytes). read_fields (at b c0))
            (sym (fields_tail c save vars (let k = s.five in omega arith)))
          ∙ read_fields-format c save c0 vars s.storable

      rid_read :
          read_item 2 (at vars (fill c save c0))
          ≡ next
              (first_rid (set_vars (view c.table)))
              (at (behind_rid (set_vars (view c.table))) (fill c save c0))
      rid_read = rw vars_format-split (
          read_item-word 2 _ _ _ (
            rid_small (set_vars (view c.table))
              (Ascending-select (view c.table) 0 s.well_formed.ascending)))
        where
          rid_small : (ys : List RelVarImpl) → Ascending 0 ys → first_rid ys < 2 ^ 16
          rid_small [] b = omega arith
          rid_small (y ∷ ys) b = b.1

  -- Serialize returns a buffer, and Deserialize on it succeeds and leaves a copy: every member of a
  -- cookie that can be saved is read back into an empty one, in whatever order its relation
  -- variables were set; the two times whose getters return the time of the last hit become that.
  pub deserialize-serialize :
      (buffer : Bytes) × (c' : VCookie) × (serialize c save ≡ Run.done buffer)
      × (deserialize c0 buffer ≡ Run.done (true, c'))
      × IsCopy c save c0 c'
  unfolding deserialize result clear_flags
  deserialize-serialize = (
    saved_bytes c save,
    result,
    serialize-document c save s.well_formed
        (All-map_pred (λ x f. f.rid_valid) (view c.table) s.vars) (let k = s.five in omega arith)
        s.size,
    ap finish parsed,
    record {
      members =
          ap (λ (r : VCookie). record r { table = read.table })
            (fill_lem c save c0 l.blank l.no_hit s.distinct s.five);
      variables = read.holds;
    },
  )
