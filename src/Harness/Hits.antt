-- ===== src/Harness/Hits.antt =====
-- dwfileHitSource of the test harness (testharness.cpp): hits from the lines of data files. The
-- functions of boost are a parameter, and so are the files.
pub mod Source
pub mod Lines
use elevator.Base.{
  ℕ, zero, suc, ◌+◌, ◌-◌, ◌*◌, ◌%◌, ◌^◌, Bool, List, [], ◌∷◌, ◌++◌, Option, ltb, if◌then◌else◌,
  length, Bytes, bytes_eq, decimal, bit_xor,
}
use elevator.Base.Text.{codes}

-- hitData_t
pub record HitData : Type 0 where
  pub rsid : ℕ
  pub visid_high : ℕ
  pub visid_low : ℕ
  pub visid_new : Bool
  pub hit_time_gmt : ℕ
  pub visit_num : ℕ
  pub referrer : Bytes
  pub page_url : Bytes
  pub page_name : Bytes
  pub purchase_time_gmt : ℕ
  pub purchaseid : Bytes
  pub campaign : Bytes
  pub evar : List Bytes

-- boost's split at tabs, regex_replace (text, pattern, replacement), and lexical_cast to an unsigned
-- long and to a char, which throws (`none`) on a text that is none.
pub record Boost : Type 0 where
  pub split : Bytes → List Bytes
  pub regex_replace : Bytes → Bytes → Bytes → Bytes
  pub cast_ulong : Bytes → Option ℕ
  pub cast_char : Bytes → Option ℕ

-- A `char` is signed, so one from 128 on is negative, and so is the `unsigned` made of it.
abbrev pub sign_extend : ℕ → ℕ
sign_extend c = if ltb c 128 then c else c + (2 ^ 32 - 256)

-- hash, the loop with `h`
unfoldable pub hash_from : ℕ → Bytes → ℕ
hash_from h [] = h
hash_from h (c ∷ str) = hash_from (bit_xor (h * 2 % 2 ^ 32) (sign_extend c)) str

unfoldable pub hash : Bytes → ℕ
unfolding hash_from
hash str = hash_from 0 str

-- post_evar1 to post_evar75, from `i` on; `left` remain.
unfoldable pub evar_names : ℕ → ℕ → List Bytes
unfolding decimal
evar_names zero i = []
evar_names (suc left) i = (codes "post_evar" ++ decimal i) ∷ evar_names left (suc i)

-- fieldNames, split at its commas
unfoldable pub field_names : List Bytes
unfolding evar_names
field_names =
    codes "userid"
    ∷ codes "visid_new"
    ∷ codes "visid_type"
    ∷ codes "post_visid_high"
    ∷ codes "post_visid_low"
    ∷ codes "hit_time_gmt"
    ∷ codes "visit_num"
    ∷ codes "post_referrer"
    ∷ codes "post_page_url"
    ∷ codes "post_pagename"
    ∷ codes "last_purchase_time_gmt"
    ∷ codes "post_purchaseid"
    ∷ codes "post_campaign"
    ∷ evar_names 75 1

-- fieldMap[name], once the loop has stored the index of every name: the last one, or 0 for none.
unfoldable pub index_from : Bytes → List Bytes → ℕ → ℕ → ℕ
unfolding bytes_eq
index_from name [] i found = found
index_from name (x ∷ names) i found =
    index_from name names (i + 1) (if bytes_eq x name then i else found)

unfoldable pub field_index : Bytes → ℕ
unfolding index_from field_names
field_index name = index_from name field_names 0 0

-- The members f_userid to f_evar1 and fieldCount.
pub record Fields : Type 0 where
  pub userid : ℕ
  pub visid_new : ℕ
  pub visid_type : ℕ
  pub visid_high : ℕ
  pub visid_low : ℕ
  pub hit_time_gmt : ℕ
  pub visit_num : ℕ
  pub referrer : ℕ
  pub page_url : ℕ
  pub pagename : ℕ
  pub last_purchase_time_gmt : ℕ
  pub purchaseid : ℕ
  pub campaign : ℕ
  pub evar1 : ℕ
  pub field_count : ℕ

-- What the constructor of dwfileHitSource precalculates.
unfoldable pub offsets : Fields
unfolding field_index
offsets = record {
  userid = field_index (codes "userid");
  visid_new = field_index (codes "visid_new");
  visid_type = field_index (codes "visid_type");
  visid_high = field_index (codes "post_visid_high");
  visid_low = field_index (codes "post_visid_low");
  hit_time_gmt = field_index (codes "hit_time_gmt");
  visit_num = field_index (codes "visit_num");
  referrer = field_index (codes "post_referrer");
  page_url = field_index (codes "post_page_url");
  pagename = field_index (codes "post_pagename");
  last_purchase_time_gmt = field_index (codes "last_purchase_time_gmt");
  purchaseid = field_index (codes "post_purchaseid");
  campaign = field_index (codes "post_campaign");
  evar1 = field_index (codes "post_evar1");
  field_count = length field_names;
}
