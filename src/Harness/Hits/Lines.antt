-- ===== src/Harness/Hits/Lines.antt =====
-- NextHit over its files: that it ends, and the fields that it reads.
use elevator.Base.{
  ℕ, zero, suc, ◌+◌, ◌≤◌, ◌<◌, ◌≡◌, ◌≢◌, refl, arith, Bool, true, false, not, ◌&&◌, ◌||◌, List, [],
  ◌∷◌, Option, none, some, ◌==◌, ==_iff, if◌then◌else◌, length, Bytes, Bool-cases, inl, inr,
}
use elevator.Cookie.Vars.{is_empty}
use elevator.Harness.Hits.{HitData, Boost, offsets}
use elevator.Harness.Hits.Source.{
  HitSource, Files, open_file, open_next_file, read_line, Field, value, throws, missing, ◌>>=◌,
  text_at, or_throw, read_evars, read_hit, NextHit, undefined, out_of_fuel, of_field, step_file,
  next_hit, number_at, is_new_visid, split_line,
}

-- The bytes of the files that are left, and one for each file.
unfoldable pub bytes_left : Files → List Bytes → ℕ
bytes_left files [] = 0
bytes_left files (name ∷ names) =
    (elim (files name) [ none ↦ 0 | some bytes ↦ length bytes ]) + 1 + bytes_left files names

-- What NextHit can still read: each call of itself makes it less.
unfoldable pub reads_left : Files → HitSource → ℕ
unfolding bytes_left
reads_left files s =
    (if s.is_open && not s.eof then length s.unread + 1 else 0) + bytes_left files s.filenames

read_line_shorter :
    (bs : Bytes)
    → let (line, rest, ended) = read_line bs in
      (ended ≡ true → rest ≡ []) × (ended ≡ false → length rest < length bs)
unfolding read_line
read_line_shorter [] = (λ e. refl, λ e. cc)
read_line_shorter (b ∷ bs) = ground (arith, read_line_shorter bs)

opened_as :
    (files : Files) (o : Option Bytes) (names : List Bytes)
    → reads_left files (open_file o names)
      ≤ (elim o [ none ↦ 0 | some bytes ↦ length bytes ]) + 1 + bytes_left files names
unfolding reads_left
opened_as files none names = omega arith
opened_as files (some bytes) names = omega arith

opened :
    (files : Files) (names : List Bytes)
    → reads_left files (open_next_file files names) ≤ bytes_left files names
unfolding reads_left open_next_file
opened files [] = omega arith
opened files (name ∷ names) = opened_as files (files name) names

reads_left-step_file :
    (files : Files) (s : HitSource) → reads_left files (step_file files s) ≤ reads_left files s
reads_left-step_file files s = elim (Bool-cases (not s.is_open || s.eof)) [
  | inl next ↦ rw next (omega (arith, opened files s.filenames, at_least))
  | inr stay ↦ rw stay (omega arith)
]
  where
    at_least : bytes_left files s.filenames ≤ reads_left files s
    at_least = unfold reads_left in omega arith

-- A line that is read, or the end of the file, is something less to read.
reads_left-read_line :
    (files : Files) (s : HitSource)
    → (s.is_open && not s.eof) ≡ true
    → let (line, rest, ended) = read_line s.unread in
      reads_left files (record s { unread = rest; eof = ended }) < reads_left files s
unfolding reads_left
reads_left-read_line files s h = ground (arith, read_line_shorter s.unread)

if_ne : {o : NextHit} (b : Bool) (x y : NextHit) → x ≢ o → y ≢ o → (if b then x else y) ≢ o
if_ne true x y h k = h
if_ne false x y h k = k

module _ (boost : Boost) where
  of_field-ne-out_of_fuel : (f : Field HitData) (s : HitSource) → of_field f s ≢ out_of_fuel
  of_field-ne-out_of_fuel (value h) s = λ e. cc
  of_field-ne-out_of_fuel throws s = λ e. cc
  of_field-ne-out_of_fuel missing s = λ e. cc

  -- NextHit ends: as many rounds as there are bytes and files left, and one more, are enough.
  pub next_hit-ne-out_of_fuel :
      (fuel : ℕ) (files : Files) (s : HitSource)
      → reads_left files s < fuel
      → next_hit boost fuel files s ≢ out_of_fuel
  unfolding next_hit
  next_hit-ne-out_of_fuel zero files s h = absurd (omega arith)
  next_hit-ne-out_of_fuel (suc fuel) files s h =
      let s1 = step_file files s in
      elim (Bool-cases (s1.is_open && not s1.eof)) [
        | inl ready ↦
            let again =
              next_hit-ne-out_of_fuel fuel files
                (record s1 { unread = (read_line s1.unread).1; eof = (read_line s1.unread).2 })
                (omega
                  (arith, reads_left-read_line files s1 ready, reads_left-step_file files s)) in
            let line = (read_line s1.unread).0 in
            let fields = split_line boost line in
            let s2 = record s1 {
              unread = (read_line s1.unread).1;
              eof = (read_line s1.unread).2;
            } in
            rw ready (
              if_ne ((read_line s1.unread).2 && is_empty line) _ _ again (
                if_ne (length fields == offsets.field_count) _ _
                  (of_field-ne-out_of_fuel (read_hit boost offsets fields) s2) again))
        | inr no_file ↦ rw no_file (λ e. cc)
      ]

-- A value or an exception, and no index that is not there.
data IsThere {A : Type 0} : Field A → Type 0 where
  is_value : (a : A) → IsThere (value a)
  is_throw : IsThere throws

bind-IsThere :
    {A B : Type 0} {m : Field A} {f : A → Field B}
    → IsThere m
    → ((a : A) → IsThere (f a))
    → IsThere (m >>= f)
bind-IsThere (is_value a) k = k a
bind-IsThere is_throw k = is_throw

or_throw-IsThere : {A : Type 0} (o : Option A) → IsThere (or_throw o)
or_throw-IsThere none = is_throw
or_throw-IsThere (some a) = is_value a

text_at-IsThere : (fields : List Bytes) (i : ℕ) → i < length fields → IsThere (text_at fields i)
text_at-IsThere [] i h = absurd (omega arith)
text_at-IsThere (x ∷ fields) zero h = is_value x
text_at-IsThere (x ∷ fields) (suc i) h = text_at-IsThere fields i (omega arith)

read_evars-IsThere :
    (fields : List Bytes) (left i : ℕ)
    → i + left ≤ length fields
    → IsThere (read_evars fields left i)
unfolding read_evars
read_evars-IsThere fields zero i h = is_value []
read_evars-IsThere fields (suc left) i h =
    bind-IsThere (text_at-IsThere fields i (omega arith)) (λ s.
      bind-IsThere (read_evars-IsThere fields left (suc i) (omega arith)) (λ rest. is_value _))

if-IsThere :
    {A : Type 0} (b : Bool) {x y : Field A} → IsThere x → IsThere y → IsThere (if b then x else y)
if-IsThere true h k = h
if-IsThere false h k = k

module _ (boost : Boost) (fields : List Bytes) (full : length fields ≡ 88) where
  text : (i : ℕ) → i < 88 → IsThere (text_at fields i)
  text i h = text_at-IsThere fields i (omega arith)

  number : (i : ℕ) → i < 88 → IsThere (number_at boost fields i)
  number i h = bind-IsThere (text i h) (λ s. or_throw-IsThere (boost.cast_ulong s))

  is_new_visid-IsThere : IsThere (is_new_visid boost fields offsets)
  unfolding offsets
  is_new_visid-IsThere = bind-IsThere (number 2 (omega arith)) (λ kind.
      if-IsThere (kind == 3)
        (bind-IsThere (text 1 (omega arith))
          (λ s. bind-IsThere (or_throw-IsThere (boost.cast_char s)) (λ c. is_value _)))
        (is_value false))

  read_hit-IsThere : IsThere (read_hit boost offsets fields)
  unfolding read_hit offsets
  read_hit-IsThere = bind-IsThere (number 0 (omega arith)) (λ rsid.
      bind-IsThere (number 3 (omega arith)) (λ high. bind-IsThere (number 4 (omega arith)) (λ low.
        bind-IsThere is_new_visid-IsThere (λ new. bind-IsThere (number 5 (omega arith)) (λ hit_time.
          bind-IsThere (number 6 (omega arith)) (λ visit_num.
            bind-IsThere (text 7 (omega arith)) (λ referrer.
              bind-IsThere (text 8 (omega arith)) (λ page_url.
                bind-IsThere (text 9 (omega arith)) (λ page_name.
                  bind-IsThere (number 10 (omega arith)) (λ purchase_time.
                    bind-IsThere (text 11 (omega arith)) (λ purchaseid.
                      bind-IsThere (text 12 (omega arith)) (λ campaign.
                        bind-IsThere (read_evars-IsThere fields 75 13 (omega arith))
                          (λ evar. is_value _)))))))))))))

of_field-ne-undefined : (f : Field HitData) (s : HitSource) → IsThere f → of_field f s ≢ undefined
of_field-ne-undefined f s (is_value h) = λ e. cc
of_field-ne-undefined f s is_throw = λ e. cc

if_len_ne :
    (n : ℕ) (x y : NextHit)
    → (n ≡ 88 → x ≢ undefined)
    → y ≢ undefined
    → (if n == 88 then x else y) ≢ undefined
if_len_ne n x y h k = elim (Bool-cases (n == 88)) [
  | inl e ↦ rw e (h ((==_iff n 88).0 e))
  | inr e ↦ rw e k
]

-- NextHit reads no field that the line does not have: it passes over a line with another number of
-- fields, and the offset of every member and evar is below that number.
pub next_hit-ne-undefined :
    (boost : Boost) (fuel : ℕ) (files : Files) (s : HitSource)
    → next_hit boost fuel files s ≢ undefined
unfolding next_hit
next_hit-ne-undefined boost zero files s = λ e. cc
next_hit-ne-undefined boost (suc fuel) files s =
    let s1 = step_file files s in
    let line = (read_line s1.unread).0 in
    let fields = split_line boost line in
    let s2 = record s1 { unread = (read_line s1.unread).1; eof = (read_line s1.unread).2 } in
    let again = next_hit-ne-undefined boost fuel files s2 in
    if_ne (s1.is_open && not s1.eof) _ _
      (if_ne ((read_line s1.unread).2 && is_empty line) _ _ again (
        unfold offsets in
        if_len_ne (length fields) _ _
          (λ full.
            of_field-ne-undefined (read_hit boost offsets fields) s2
              (read_hit-IsThere boost fields full))
          again))
      (λ e. cc)
