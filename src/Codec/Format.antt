-- ===== src/Codec/Format.antt =====
-- The format of a serialized cookie, as a plain function of its contents.
use elevator.Base.{ℕ, Bool, List, [], ◌∷◌, ◌++◌, ◌==◌, if◌then◌else◌, length, Bytes, word}
use elevator.Cookie.{VCookie}
use elevator.Cookie.Vars.{RelVar, RelVarImpl, is_empty, invalid_rid}

-- What is read next, and what follows it: the reader is always one byte ahead.
abbrev pub Ahead : Type 0
Ahead = ℕ × Bytes

abbrev pub flat : Ahead → Bytes
flat (h, t) = h ∷ t

unfoldable pub number : ℕ → ℕ → ℕ → Ahead → Ahead
number field size v s = if v == 0 then s else (field, word size v ++ flat s)

unfoldable pub text : ℕ → Bytes → Ahead → Ahead
text field v s = if is_empty v then s else (field, v ++ (0 ∷ flat s))

abbrev pub texts : List Bytes → Bytes → Bytes
texts [] t = t
texts (p ∷ ps) t = p ++ (0 ∷ texts ps t)

unfoldable pub purchases : List Bytes → Ahead → Ahead
purchases ids s = if is_empty ids then s else (11, length ids ∷ texts ids (flat s))

-- The fields of a cookie, before `s`.
unfoldable pub fields : VCookie → Bool → Ahead → Ahead
fields c save s = number 1 8 c.first_hit_time_gmt (
    number 2 8 (if save then c.last_hit_time_gmt else 0) (
      number 3 8 c.last_hit_time_gmt (
        number 4 4 c.last_visit_num (
          number 5 8 c.last_hit_time_gmt (
            text 6 c.first_hit_referrer (
              text 7 c.first_hit_page_url (
                text 8 c.first_hit_pagename (
                  number 9 4 c.last_purchase_num
                    (text 10 c.merchandising (purchases c.purchase_ids s))))))))))

-- A relation variable's elements, and the variables, each before `t`.
unfoldable pub elements_format : List RelVar → Bytes → Bytes
elements_format [] t = t
elements_format (e ∷ es) t =
    e.value ++ (0 ∷ (word 8 e.timestamp ++ (word 1 e.revision ++ elements_format es t)))

-- The relation ids of non-empty variables, with their elements, and INVALID_RID.
unfoldable pub vars_format : List RelVarImpl → Bytes
vars_format [] = word 2 invalid_rid
vars_format (x ∷ xs) =
    word 2 x.relation_id ++ (word 4 (length x.var) ++ elements_format x.var (vars_format xs))

-- A serialized cookie: versions, flag, offset of the variables, fields, variables.
abbrev pub document : ℕ → Bytes → Bytes → Bytes
document offset fs vs = 0 ∷ 0 ∷ 0 ∷ (word 4 offset ++ (fs ++ vs))

-- The fields with the byte 0 that ends them.
abbrev pub field_bytes : VCookie → Bool → Bytes
field_bytes c save = flat (fields c save (0, []))
