-- ===== src/Memory.antt =====
-- class VCStoreInMemory (VCStoreInMemory.h, and its copy in abstraction/). The std::map is the list
-- of its nodes in the order of iteration, searched from the front for the lower bound of a key;
-- this is what std::map does where operator < orders the key and those in it (Memory/Keys.Orders).
-- Where it does not, the use of a std::map is undefined, and `find`, `insert`, `assign` and `erase`
-- say nothing of the program: a theorem that rests on their search has the order as a hypothesis.
pub mod Keys
pub mod Restore
pub mod Apart
pub mod Equal
pub mod Undo
pub mod Purge
use elevator.Base.{
  ℕ, zero, suc, ◌+◌, ◌%◌, ◌^◌, Bool, true, false, List, [], ◌∷◌, Option, none, some, ltb, leb, ◌||◌,
  not, if◌then◌else◌, length, Run, done, fault, out_of_fuel, Bytes,
}
use elevator.Base.Outcome.{◌>>=◌}
use elevator.Cookie.{VCookie, set_last_hit_time_gmt, reset}
use elevator.Codec.Write.{serialize}
use elevator.Codec.Read.{deserialize}

pub record VCookieId : Type 0 where
  pub userid : ℕ
  pub visid_high : ℕ
  pub visid_low : ℕ

-- operator <, as it is written
unfoldable pub id_lt : VCookieId → VCookieId → Bool
id_lt a b = ltb a.userid b.userid || (ltb a.visid_high b.visid_high || ltb a.visid_low b.visid_low)

-- operator <=, >= and >
unfoldable pub id_le : VCookieId → VCookieId → Bool
id_le a b = leb a.userid b.userid || (leb a.visid_high b.visid_high || leb a.visid_low b.visid_low)

unfoldable pub id_ge : VCookieId → VCookieId → Bool
unfolding id_lt
id_ge a b = not (id_lt a b)

unfoldable pub id_gt : VCookieId → VCookieId → Bool
unfolding id_le
id_gt a b = not (id_le a b)

abbrev pub ValuePair : Type 0
ValuePair = ℕ × Bytes

abbrev pub StoreMap : Type 0
StoreMap = List (VCookieId × ValuePair)

-- map::find, where operator < orders the keys
unfoldable pub find : VCookieId → StoreMap → Option ValuePair
find k [] = none
find k ((j, v) ∷ m) = if id_lt j k then find k m else (if id_lt k j then none else some v)

-- map::insert, where operator < orders the keys: it keeps a node that is there.
unfoldable pub insert : VCookieId → ValuePair → StoreMap → StoreMap
insert k v [] = (k, v) ∷ []
insert k v ((j, w) ∷ m) =
    if id_lt j k
    then (j, w) ∷ insert k v m
    else if id_lt k j
    then (k, v) ∷ (j, w) ∷ m
    else (j, w) ∷ m

-- A write through the iterator that insert returns, which is the node that a search finds where operator <
-- orders the keys.
unfoldable pub assign : VCookieId → ValuePair → StoreMap → StoreMap
assign k v [] = []
assign k v ((j, w) ∷ m) =
    if id_lt j k then (j, w) ∷ assign k v m else (if id_lt k j then (j, w) ∷ m else (j, v) ∷ m)

-- map::erase (key), where operator < orders the keys, with the number of nodes erased
unfoldable pub erase : VCookieId → StoreMap → StoreMap × ℕ
erase k [] = ([], 0)
erase k ((j, w) ∷ m) =
    let (rest, n) = erase k m in
    if id_lt j k then ((j, w) ∷ rest, n) else if id_lt k j then ((j, w) ∷ m, 0) else (m, 1)

abbrev pub vid : VCookie → VCookieId
vid c = record { userid = c.userid; visid_high = c.visid_high; visid_low = c.visid_low }

unfoldable pub save_vcookie : StoreMap → VCookie → Run (StoreMap × Bool)
save_vcookie store c = do
  buffer ← serialize c false
  done (
    assign (vid c) (c.last_hit_time_gmt, buffer) (insert (vid c) (c.last_hit_time_gmt, []) store),
    true,
  )

-- LoadVCookie, on the node that find returns
unfoldable pub load_found : VCookie → Option ValuePair → Run (Bool × VCookie)
load_found c none = done (false, c)
load_found c (some (t, buffer)) = deserialize (set_last_hit_time_gmt c t) buffer

unfoldable pub load_vcookie : StoreMap → VCookie → Run (Bool × VCookie)
unfolding load_found
load_vcookie store c = load_found c (find (vid c) store)

unfoldable pub delete_vcookie : StoreMap → VCookie → StoreMap × Bool
delete_vcookie store c = let (rest, s) = erase (vid c) store in (rest, ltb 0 s)

-- `<` on time_t, a signed 64-bit number, by its pattern
unfoldable pub time_lt : ℕ → ℕ → Bool
time_lt a b = ltb ((a + 2 ^ 63) % 2 ^ 64) ((b + 2 ^ 63) % 2 ^ 64)

-- The loop of DeleteOldVCookies: what is left, and how many were erased (modulo 2 ^ 64).
unfoldable pub delete_old_vcookies : StoreMap → ℕ → StoreMap × ℕ
delete_old_vcookies [] t = ([], 0)
delete_old_vcookies ((k, (hit, buffer)) ∷ m) t =
    let (rest, deleted) = delete_old_vcookies m t in
    if time_lt hit t then (rest, (deleted + 1) % 2 ^ 64) else ((k, (hit, buffer)) ∷ rest, deleted)

unfoldable pub get_vcookie_count : StoreMap → ℕ
get_vcookie_count store = length store

-- while (i < index) { ++v; } on the nodes from `v` on; nothing changes `i`.
unfoldable pub walk : ℕ → ℕ → ℕ → StoreMap → Run StoreMap
walk zero i index v = out_of_fuel
walk (suc fuel) i index v =
    let further : Run StoreMap = elim v [ [] ↦ fault | node ∷ rest ↦ walk fuel i index rest ] in
    if ltb i index then further else done v

-- What GetVCookie does with the node that the walk ends at.
unfoldable pub get_node : VCookie → StoreMap → Run (Bool × VCookie)
get_node c [] = fault
get_node c ((k, (t, buffer)) ∷ rest) =
    deserialize (set_last_hit_time_gmt (reset c k.userid k.visid_high k.visid_low) t) buffer

unfoldable pub get_vcookie : ℕ → StoreMap → VCookie → ℕ → Run (Bool × VCookie)
unfolding walk
get_vcookie fuel store c index =
    let walked = (do v ← walk fuel 0 index store; get_node c v) in
    if leb (length store) index then done (false, c) else walked
