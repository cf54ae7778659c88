-- ===== src/Harness/Hits/Source.antt =====
-- NextHit of dwfileHitSource: files, lines, and the fields of a line.
use elevator.Base.{
  get_elem?, ℕ, zero, suc, ◌%◌, ◌^◌, Bool, true, false, not, ◌&&◌, ◌||◌, List, [], ◌∷◌, Option,
  none, some, ◌==◌, if◌then◌else◌, length, Bytes,
}
use elevator.Cookie.Vars.{is_empty}
use elevator.Harness.Hits.{HitData, Boost, Fields, offsets}

-- The stream `infile` and the file names from `currFilename` on. `unread` is what getline has not
-- read of the open file, and `eof` its flag; no read of the disk fails.
pub record HitSource : Type 0 where
  pub is_open : Bool
  pub eof : Bool
  pub unread : Bytes
  pub filenames : List Bytes

-- The contents of a file, or none if it cannot be opened.
abbrev pub Files : Type 0
Files = Bytes → Option Bytes

abbrev pub open_file : Option Bytes → List Bytes → HitSource
open_file none names = record { is_open = false; eof = false; unread = []; filenames = names }
open_file (some bytes) names = record {
  is_open = true;
  eof = false;
  unread = bytes;
  filenames = names;
}

-- openNextFile
unfoldable pub open_next_file : Files → List Bytes → HitSource
open_next_file files [] = record { is_open = false; eof = false; unread = []; filenames = [] }
open_next_file files (name ∷ names) = open_file (files name) names

-- getline: the line, what is behind it, and whether the file ended in place of a newline.
unfoldable pub read_line : Bytes → Bytes × Bytes × Bool
read_line [] = ([], [], true)
read_line (b ∷ bs) =
    let (line, rest, ended) = read_line bs in
    if b == 10 then ([], bs, false) else (b ∷ line, rest, ended)

-- What a field gives: its value, an exception of boost's, or an index that is not there.
pub data Field (A : Type 0) : Type 0 where
  value : A → Field A
  throws : Field A
  missing : Field A

infixl 5 ◌>>=◌
abbrev pub ◌>>=◌ : {A B : Type 0} → Field A → (A → Field B) → Field B
value a >>= f = f a
throws >>= f = throws
missing >>= f = missing

abbrev pub text_at : List Bytes → ℕ → Field Bytes
text_at fields i = elim (get_elem? fields i) [ none ↦ missing | some s ↦ value s ]

abbrev pub or_throw : {A : Type 0} → Option A → Field A
or_throw none = throws
or_throw (some a) = value a

-- The loop over the 75 evars; `left` remain.
unfoldable pub read_evars : List Bytes → ℕ → ℕ → Field (List Bytes)
read_evars fields zero i = value []
read_evars fields (suc left) i = do
  s ← text_at fields i
  rest ← read_evars fields left (suc i)
  value (s ∷ rest)

-- What NextHit leaves: a hit, none, an exception, or an index that is not there; with the source.
pub data NextHit : Type 0 where
  hit : HitData → HitSource → NextHit
  no_hit : HitSource → NextHit
  thrown : HitSource → NextHit
  undefined : NextHit
  out_of_fuel : NextHit

abbrev pub of_field : Field HitData → HitSource → NextHit
of_field (value h) s = hit h s
of_field throws s = thrown s
of_field missing s = undefined

-- The stream as NextHit reads it: the open file, or the next one.
abbrev pub step_file : Files → HitSource → HitSource
step_file files s = if not s.is_open || s.eof then open_next_file files s.filenames else s

module _ (boost : Boost) where
  abbrev pub number_at : List Bytes → ℕ → Field ℕ
  number_at fields i = text_at fields i >>= λ s. or_throw (boost.cast_ulong s)

  -- visid_new counts only for type 3; lexical_cast<char> is reached only then. 'Y' is 89.
  abbrev pub is_new_visid : List Bytes → Fields → Field Bool
  is_new_visid fields f = do
    kind ← number_at fields f.visid_type
    let flag : Field Bool = do
      s ← text_at fields f.visid_new
      c ← or_throw (boost.cast_char s)
      value (c == 89)
    if kind == 3 then flag else value false

  -- The members of the hit, from the fields of a line.
  unfoldable pub read_hit : Fields → List Bytes → Field HitData
  unfolding read_evars
  read_hit f fields = do
    rsid ← number_at fields f.userid
    visid_high ← number_at fields f.visid_high
    visid_low ← number_at fields f.visid_low
    visid_new ← is_new_visid fields f
    hit_time ← number_at fields f.hit_time_gmt
    visit_num ← number_at fields f.visit_num
    referrer ← text_at fields f.referrer
    page_url ← text_at fields f.page_url
    page_name ← text_at fields f.pagename
    purchase_time ← number_at fields f.last_purchase_time_gmt
    purchaseid ← text_at fields f.purchaseid
    campaign ← text_at fields f.campaign
    evar ← read_evars fields 75 f.evar1
    value (record {
      rsid = rsid % 2 ^ 32;
      visid_high = visid_high;
      visid_low = visid_low;
      visid_new = visid_new;
      hit_time_gmt = hit_time;
      visit_num = visit_num;
      referrer = referrer;
      page_url = page_url;
      page_name = page_name;
      purchase_time_gmt = purchase_time;
      purchaseid = purchaseid;
      campaign = campaign;
      evar = evar;
    })

  -- boost::regex (slash + slash + tab) is two backslashes and a tab in boost's syntax.
  abbrev pub escape : Bytes
  escape = 92 ∷ 92 ∷ 92 ∷ 92 ∷ 92 ∷ 116 ∷ []

  abbrev pub split_line : Bytes → List Bytes
  split_line line = boost.split (boost.regex_replace line escape (32 ∷ []))

  -- NextHit; each call of itself has read a line, or the end of a file.
  unfoldable pub next_hit : ℕ → Files → HitSource → NextHit
  unfolding open_next_file read_line offsets
  next_hit zero files s = out_of_fuel
  next_hit (suc fuel) files s =
      let s1 = step_file files s in
      let (line, rest, ended) = read_line s1.unread in
      let s2 = record s1 { unread = rest; eof = ended } in
      let again = next_hit fuel files s2 in
      let fields = split_line line in
      let read =
        if ended && is_empty line
        then again
        else (if length fields == offsets.field_count
            then of_field (read_hit offsets fields) s2
            else again) in
      if s1.is_open && not s1.eof then read else no_hit s1
