-- ===== src/Codec/Intact/Written.antt =====
-- Serialize (abstraction/vcookiestore.cpp) of an intact cookie returns bytes, however long its texts are.
use elevator.Base.{
  ℕ, zero, suc, ◌+◌, ◌-◌, ◌/◌, ◌%◌, ◌^◌, ◌<◌, ◌≤◌, ◌≡◌, ◌≢◌, ap, ◌∙◌, some, read_word,
  read_word-word, length-append, length-word, subst, sym, arith, Bool, List, [], ◌∷◌, ◌++◌, ◌==◌,
  length, take, select, All, All-append, All-map_pred, Bytes, Bool-cases, inl, inr, word, done,
}
use mathlib.Core.List.{append_assoc}
use elevator.Cookie.{VCookie}
use elevator.Cookie.Vars.{RelVar, RelVarImpl, is_empty, invalid_rid}
use elevator.Cookie.Vars.View.{view}
use elevator.Cookie.Vars.Read.{is_set, get_first_set_var, get_set_var}
use elevator.Codec.Write.{serialize, overwrite, add_item, add_fields}
use elevator.Codec.Format.{
  Ahead, flat, number, text, texts, purchases, fields, field_bytes, elements_format, vars_format,
}
use elevator.Codec.Emit.{set_vars, add_vars-format, add_fields-fields}
use elevator.Codec.Valid.{AreBytes, PointsInside, IsBuffer, All-drop}
use elevator.Codec.Intact.{IsIntact, IsIntactVar}

word-AreBytes : (n v : ℕ) → AreBytes (word n v)
unfolding word
word-AreBytes zero v = tt
word-AreBytes (suc n) v = (omega arith, word-AreBytes n (v / 256))

append-AreBytes : (a b : Bytes) → AreBytes a → AreBytes b → AreBytes (a ++ b)
append-AreBytes a b h k = All-append (λ x. x < 256) a b h k

number-AreBytes :
    (field size v : ℕ) (s : Ahead)
    → field < 256
    → AreBytes (flat s)
    → AreBytes (flat (number field size v s))
unfolding number
number-AreBytes field size v s f h = elim (Bool-cases (v == 0)) [
  | inl e ↦ rw e h
  | inr e ↦ rw e (f, append-AreBytes (word size v) (flat s) (word-AreBytes size v) h)
]

text-AreBytes :
    (field : ℕ) (v : Bytes) (s : Ahead)
    → field < 256
    → AreBytes v
    → AreBytes (flat s)
    → AreBytes (flat (text field v s))
unfolding text
text-AreBytes field v s f t h = elim (Bool-cases (is_empty v)) [
  | inl e ↦ rw e h
  | inr e ↦ rw e (f, append-AreBytes v (0 ∷ flat s) t (omega arith, h))
]

texts-AreBytes :
    (ids : List Bytes) (t : Bytes) → All AreBytes ids → AreBytes t → AreBytes (texts ids t)
texts-AreBytes [] t h k = k
texts-AreBytes (p ∷ ps) t (f, h) k =
    append-AreBytes p (0 ∷ texts ps t) f (omega arith, texts-AreBytes ps t h k)

purchases-AreBytes :
    (ids : List Bytes) (s : Ahead)
    → length ids < 256
    → All AreBytes ids
    → AreBytes (flat s)
    → AreBytes (flat (purchases ids s))
unfolding purchases
purchases-AreBytes ids s f h k = elim (Bool-cases (is_empty ids)) [
  | inl e ↦ rw e k
  | inr e ↦ rw e (omega arith, (f, texts-AreBytes ids (flat s) h k))
]

fields-AreBytes : (c : VCookie) (save : Bool) → IsIntact c → AreBytes (field_bytes c save)
unfolding fields
fields-AreBytes c save h = number-AreBytes 1 8 _ _ (omega arith) (
    number-AreBytes 2 8 _ _ (omega arith) (
      number-AreBytes 3 8 _ _ (omega arith) (
        number-AreBytes 4 4 _ _ (omega arith) (
          number-AreBytes 5 8 _ _ (omega arith) (
            text-AreBytes 6 _ _ (omega arith) h.referrer (
              text-AreBytes 7 _ _ (omega arith) h.page_url (
                text-AreBytes 8 _ _ (omega arith) h.pagename (
                  number-AreBytes 9 4 _ _ (omega arith) (
                    text-AreBytes 10 _ _ (omega arith) h.merchandising_text
                      (purchases-AreBytes _ _ few h.ids (omega arith, tt)))))))))))
  where
    few : length c.purchase_ids < 256
    few = let k = h.five in omega arith

elements_format-AreBytes :
    (es : List RelVar) (t : Bytes)
    → All (λ e. AreBytes e.value) es
    → AreBytes t
    → AreBytes (elements_format es t)
unfolding elements_format
elements_format-AreBytes [] t h k = k
elements_format-AreBytes (e ∷ es) t (f, h) k = append-AreBytes e.value _ f (
  omega arith,
  append-AreBytes (word 8 e.timestamp) _ (word-AreBytes 8 e.timestamp) (
      append-AreBytes (word 1 e.revision) _ (word-AreBytes 1 e.revision)
        (elements_format-AreBytes es t h k)),
)

vars_format-AreBytes : (xs : List RelVarImpl) → All IsIntactVar xs → AreBytes (vars_format xs)
unfolding vars_format
vars_format-AreBytes [] h = word-AreBytes 2 invalid_rid
vars_format-AreBytes (x ∷ xs) (v, h) =
    append-AreBytes (word 2 x.relation_id) _ (word-AreBytes 2 x.relation_id) (
      append-AreBytes (word 4 (length x.var)) _ (word-AreBytes 4 (length x.var))
        (elements_format-AreBytes x.var (vars_format xs) v.values (vars_format-AreBytes xs h)))

All-take : {A : Type 0} (Q : A → Type 0) (n : ℕ) (xs : List A) → All Q xs → All Q (take n xs)
All-take Q zero xs h = tt
All-take Q (suc n) [] h = tt
All-take Q (suc n) (x ∷ xs) (f, h) = (f, All-take Q n xs h)

All-select :
    (Q : RelVarImpl → Type 0) (p : RelVarImpl → Bool) (xs : List RelVarImpl)
    → All Q xs
    → All Q (select p xs)
All-select Q p [] h = tt
All-select Q p (x ∷ xs) (f, h) = elim (Bool-cases (p x)) [
  | inl e ↦ rw e (f, All-select Q p xs h)
  | inr e ↦ rw e (All-select Q p xs h)
]

overwrite-AreBytes :
    (b : Bytes) (i : ℕ) (bytes : Bytes)
    → AreBytes b
    → AreBytes bytes
    → AreBytes (overwrite b i bytes)
overwrite-AreBytes b i bytes h k =
    append-AreBytes (take i b) _ (All-take (λ x. x < 256) i b h)
      (append-AreBytes bytes _ k (All-drop (λ x. x < 256) (i + length bytes) b h))

-- The variables stand behind the fields, where the offset says, or before that if it wraps.
points_inside :
    (fs vs : Bytes) (offset : ℕ)
    → offset < 2 ^ 32
    → offset ≤ 7 + length fs
    → 0 < length vs
    → PointsInside ((0 ∷ 0 ∷ 0 ∷ (word 4 offset ++ fs)) ++ vs)
points_inside fs vs offset fits behind some_vars found rest e =
    let whole : (word 4 offset ++ fs) ++ vs ≡ word 4 offset ++ (fs ++ vs) =
      append_assoc (word 4 offset) fs vs in
    let k : some (offset, fs ++ vs) ≡ some (found, rest) =
      sym (read_word-word 4 offset (fs ++ vs) fits) ∙ ap (read_word 4) (sym whole) ∙ e in
    let same : offset ≡ found = cc k in
    omega (
      arith,
      same,
      length-append (0 ∷ 0 ∷ 0 ∷ (word 4 offset ++ fs)) vs,
      length-append (word 4 offset) fs,
      length-word 4 offset,
    )

vars_format-full : (xs : List RelVarImpl) → 0 < length (vars_format xs)
unfolding vars_format word
vars_format-full [] = omega arith
vars_format-full (x ∷ xs) = omega arith

-- However long the texts are.
pub serialize-IsBuffer :
    (c : VCookie) (save : Bool)
    → IsIntact c
    → (buffer : Bytes) × (serialize c save ≡ done buffer) × IsBuffer buffer
unfolding serialize get_first_set_var get_set_var add_item word
serialize-IsBuffer c save h =
    let b = overwrite (add_fields c save header ++ (0 ∷ [])) 3 (word 4 offset) in
    (
      b ++ vars_format (set_vars (view c.table)),
      rw whole (
          add_vars-format c.table h.table.well_formed rids (length c.table.rel_var_sort) 0 _ _
            (omega arith) (omega arith)),
      (
        append-AreBytes b _
            (overwrite-AreBytes (add_fields c save header ++ (0 ∷ [])) 3 (word 4 offset)
              (subst AreBytes (sym buffer) (
                append-AreBytes header (field_bytes c save) (omega arith)
                  (fields-AreBytes c save h)))
              (word-AreBytes 4 offset))
            (vars_format-AreBytes (set_vars (view c.table))
              (All-select IsIntactVar is_set (view c.table) h.table.vars)),
        subst
            (λ (a : Bytes).
              PointsInside (overwrite a 3 (word 4 offset) ++ vars_format (set_vars (view c.table))))
            (sym buffer)
            (points_inside (field_bytes c save) (vars_format (set_vars (view c.table))) offset
              (omega arith)
              (omega (
                arith,
                ap (λ (a : Bytes). length a) buffer,
                length-append header (field_bytes c save),
              ))
              (vars_format-full (set_vars (view c.table)))),
      ),
    )
  where
    header : Bytes
    header = 0 ∷ 0 ∷ 0 ∷ 3 ∷ 0 ∷ 0 ∷ 0 ∷ []

    offset : ℕ
    offset = length (add_fields c save header ++ (0 ∷ [])) % 2 ^ 32

    buffer : add_fields c save header ++ (0 ∷ []) ≡ header ++ field_bytes c save
    buffer = add_fields-fields c save header (0, []) (let k = h.five in omega arith)

    whole : length c.table.rel_var_sort - 0 ≡ length c.table.rel_var_sort
    whole = omega arith

    rids : All (λ x. x.relation_id ≢ invalid_rid) (view c.table)
    rids = All-map_pred (λ x v. v.rid_valid) (view c.table) h.table.vars
