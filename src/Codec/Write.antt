-- ===== src/Codec/Write.antt =====
-- AddItem, AddField and VCookieStore::Serialize (abstraction/vcookiestore.cpp).
use elevator.Base.{
  ℕ, zero, suc, ◌+◌, ◌%◌, ◌^◌, Bool, List, [], ◌∷◌, ◌++◌, Option, none, some, ◌==◌, ltb,
  if◌then◌else◌, length, take, drop, Run, done, fault, out_of_fuel, Bytes, word,
}
use elevator.Base.Outcome.{◌>>=◌}
use elevator.Cookie.{
  VCookie, get_last_hit_time_visitor_local, get_last_purchase_time_gmt, get_purchase_id_count,
}
use elevator.Cookie.Vars.{RelVar, VarTable, invalid_rid, is_empty}
use elevator.Cookie.Vars.Read.{
  get_first_set_var, get_next_set_var, get_var_element_count, get_var_by_id,
}

-- AddItem (buffer, T val), by the size of T
unfoldable pub add_item : ℕ → Bytes → ℕ → Bytes
add_item size buffer val = buffer ++ word size val

-- AddItem (buffer, std::string const &val) copies the terminating 0 too.
unfoldable pub add_text : Bytes → Bytes → Bytes
add_text buffer val = buffer ++ (val ++ (0 ∷ []))

-- AddField (buffer, F fieldId, T val), by the sizes of F and T
unfoldable pub add_field : ℕ → ℕ → Bytes → ℕ → ℕ → Bytes
add_field id_size size buffer field_id val =
    if val == 0 then buffer else add_item size (add_item id_size buffer field_id) val

-- AddField (buffer, F fieldId, std::string val)
unfoldable pub add_text_field : Bytes → ℕ → Bytes → Bytes
add_text_field buffer field_id val =
    if is_empty val then buffer else add_text (add_item 1 buffer field_id) val

-- memcpy (&buffer[i], …)
abbrev pub overwrite : Bytes → ℕ → Bytes → Bytes
overwrite buffer i bytes = take i buffer ++ (bytes ++ drop (i + length bytes) buffer)

unfoldable pub add_texts : Bytes → List Bytes → Bytes
add_texts buffer [] = buffer
add_texts buffer (p ∷ ps) = add_texts (add_text buffer p) ps

-- The purchase ids: their number as an `unsigned char`, and as many of them.
unfoldable pub add_purchase_ids : VCookie → Bytes → Bytes
add_purchase_ids c buffer =
    let n = get_purchase_id_count c % 2 ^ 8 in
    if ltb 0 n then add_texts (add_field 1 1 buffer 11 n) (take n c.purchase_ids) else buffer

-- The fields from 1 to 11; `field` counts up, also past one that is not saved.
unfoldable pub add_fields : VCookie → Bool → Bytes → Bytes
add_fields c save_last_hit_time b0 =
    let b1 = add_field 1 8 b0 1 c.first_hit_time_gmt in
    let b2 = if save_last_hit_time then add_field 1 8 b1 2 c.last_hit_time_gmt else b1 in
    let b3 = add_field 1 8 b2 3 (get_last_hit_time_visitor_local c) in
    let b4 = add_field 1 4 b3 4 c.last_visit_num in
    let b5 = add_field 1 8 b4 5 (get_last_purchase_time_gmt c) in
    let b6 = add_text_field b5 6 c.first_hit_referrer in
    let b7 = add_text_field b6 7 c.first_hit_page_url in
    let b8 = add_text_field b7 8 c.first_hit_pagename in
    let b9 = add_field 1 4 b8 9 c.last_purchase_num in
    let b10 = add_text_field b9 10 c.merchandising in add_purchase_ids c b10

-- AddItem of one element of a relation variable; the null pointer is a fault.
unfoldable pub add_element : Bytes → Option RelVar → Run Bytes
add_element buffer none = fault
add_element buffer (some rv) =
    done (add_item 1 (add_item 8 (add_text buffer rv.value) rv.timestamp) rv.revision)

-- The loop over `i`; `left` elements remain.
unfoldable pub add_elements : VarTable → ℕ → ℕ → ℕ → Bytes → Run Bytes
add_elements t vid zero i buffer = done buffer
add_elements t vid (suc left) i buffer = do
  b ← add_element buffer (get_var_by_id t vid i)
  add_elements t vid left (suc i) b

-- The loop over the relation ids; what stands before it and after it reads or writes `rid` too.
unfoldable pub add_vars : ℕ → VarTable → ℕ → Bytes → Run Bytes
add_vars zero t rid buffer = out_of_fuel
add_vars (suc fuel) t rid buffer =
    let (cnt, vid) = get_var_element_count t rid in
    let round = do
      b ← add_elements t vid cnt 0 (add_field 2 4 buffer rid cnt)
      add_vars fuel t (get_next_set_var t rid) b
    in if rid == invalid_rid then done (add_item 2 buffer rid) else round

-- The header: two versions, the flag, and the offset, which is written once it is known.
abbrev pub add_header : Bytes
add_header = add_item 4 (add_item 1 (add_item 1 (add_item 1 [] 0) 0) 0) 3

-- A round for each relation variable and one that ends the loop are enough.
unfoldable pub serialize : VCookie → Bool → Run Bytes
serialize c save_last_hit_time =
    let buffer = add_item 1 (add_fields c save_last_hit_time add_header) 0 in
    let rel_var_offset = length buffer % 2 ^ 32 in
    add_vars (suc (length c.table.rel_var_sort)) c.table (get_first_set_var c.table)
      (overwrite buffer 3 (word 4 rel_var_offset))
