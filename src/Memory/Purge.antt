-- ===== src/Memory/Purge.antt =====
-- DeleteOldVCookies and GetVCookie of the in-memory store.
use elevator.Base.{
  ℕ, zero, suc, ◌+◌, ◌^◌, ◌<◌, ◌≡◌, ◌≢◌, refl, ap, arith, Bool, true, false, not, ltb, leb,
  if◌then◌else◌, All, [], ◌∷◌, select, length, Run, done, Bool-cases, inl, inr, lt→ltb,
  lt→leb_false,
}
use elevator.Base.Outcome.{◌>>=◌}
use elevator.Cookie.{VCookie}
use elevator.Memory.{
  StoreMap, time_lt, delete_old_vcookies, get_vcookie_count, walk, get_node, get_vcookie,
}

-- `a` is before `b`, as signed 64-bit numbers: the sign bits decide if they differ, the patterns if not.
abbrev pub is_before : ℕ → ℕ → Bool
is_before a b =
    if leb (2 ^ 63) a
    then (if leb (2 ^ 63) b then ltb a b else true)
    else (if leb (2 ^ 63) b then false else ltb a b)

time_lt-is_before : (a b : ℕ) → a < 2 ^ 64 → b < 2 ^ 64 → time_lt a b ≡ is_before a b
unfolding time_lt
time_lt-is_before a b h k = ground arith

-- On a store of fewer than 2 ^ 64 nodes whose times, like `t`, are 64-bit patterns, DeleteOldVCookies keeps exactly the nodes
-- whose time is not before `t` as a signed number, in their order, and returns how many it erased.
pub delete_old_vcookies_lem :
    (t : ℕ) (m : StoreMap)
    → get_vcookie_count m < 2 ^ 64
    → t < 2 ^ 64
    → All (λ x. x.1.0 < 2 ^ 64) m
    → ((delete_old_vcookies m t).0 ≡ select (λ x. not (is_before x.1.0 t)) m)
      × ((delete_old_vcookies m t).1 + get_vcookie_count (delete_old_vcookies m t).0
          ≡ get_vcookie_count m)
unfolding delete_old_vcookies get_vcookie_count
delete_old_vcookies_lem t [] h w ws = (refl, omega arith)
delete_old_vcookies_lem t ((k, (hit, b)) ∷ m) h w (p, ws) =
    let (kept, count) = delete_old_vcookies_lem t m (omega arith) w ws in
    let same = time_lt-is_before hit t p w in
    elim (Bool-cases (is_before hit t)) [
      | inl old ↦ rw (same, old) (kept, omega (arith, count))
      | inr new ↦
          rw (same, new) (ap (λ (l : StoreMap). (k, (hit, b)) ∷ l) kept, omega (arith, count))
    ]

walk-never : (fuel index : ℕ) (v rest : StoreMap) → 0 < index → walk fuel 0 index v ≢ done rest
unfolding walk
walk-never zero index v rest h = λ e. cc
walk-never (suc fuel) index [] rest h = rw (lt→ltb 0 index h) (λ e. cc)
walk-never (suc fuel) index (x ∷ v) rest h = rw (lt→ltb 0 index h) (walk-never fuel index v rest h)

-- GetVCookie does not return for an index that is in range and not 0: its loop never changes the
-- counter that it tests, so it runs past the last node.
pub get_vcookie-never :
    (fuel index : ℕ) (store : StoreMap) (c : VCookie) (r : Bool × VCookie)
    → 0 < index
    → index < get_vcookie_count store
    → get_vcookie fuel store c index ≢ done r
unfolding get_vcookie get_vcookie_count
get_vcookie-never fuel index store c r h k =
    rw (lt→leb_false (length store) index k) (by_walk (walk fuel 0 index store) refl)
  where
    by_walk : (w : Run StoreMap) → walk fuel 0 index store ≡ w → (w >>= get_node c) ≢ done r
    by_walk (done v) e = absurd (walk-never fuel index store v h e)
    by_walk Run.fault e = λ q. cc
    by_walk Run.out_of_fuel e = λ q. cc
