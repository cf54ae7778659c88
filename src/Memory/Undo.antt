-- ===== src/Memory/Undo.antt =====
-- DeleteVCookie after SaveVCookie.
use elevator.Base.{suc, length, ◌∙◌, false, ◌≡◌, refl, arith, true, none, [], ◌∷◌, done}
use elevator.Cookie.{VCookie}
use elevator.Codec.RoundTrip.{CanSave, deserialize-serialize}
use elevator.Memory.{
  VCookieId, ValuePair, StoreMap, vid, find, insert, assign, erase, save_vcookie, delete_vcookie,
  get_vcookie_count,
}
use elevator.Memory.Keys.{id_lt_refl, Orders, assign-insert-Orders}
use elevator.Memory.Restore.{found_by, found_by-CanLoad}

erase-assign-insert :
    (k : VCookieId) (v w : ValuePair) (m : StoreMap)
    → find k m ≡ none
    → erase k (assign k w (insert k v m)) ≡ (m, 1)
unfolding find insert assign erase
erase-assign-insert k v w [] h = ground (arith, id_lt_refl k)
erase-assign-insert k v w ((j, u) ∷ m) h = ground (arith, id_lt_refl k, erase-assign-insert k v w m)

erase_absent : (k : VCookieId) (m : StoreMap) → find k m ≡ none → erase k m ≡ (m, 0)
unfolding find erase
erase_absent k [] h = refl
erase_absent k ((j, u) ∷ m) h = ground (arith, erase_absent k m)

length-assign : (k : VCookieId) (v : ValuePair) (m : StoreMap) → length (assign k v m) ≡ length m
unfolding assign
length-assign k v [] = refl
length-assign k v ((j, u) ∷ m) = ground (arith, length-assign k v m)

length-insert :
    (k : VCookieId) (v : ValuePair) (m : StoreMap)
    → find k m ≡ none
    → length (insert k v m) ≡ suc (length m)
unfolding find insert
length-insert k v [] h = refl
length-insert k v ((j, u) ∷ m) h = ground (arith, length-insert k v m)

-- Where operator < orders a visitor's id and the ids in the store, and the store has no record of the visitor: DeleteVCookie answers false and changes nothing; and after
-- SaveVCookie of a cookie of the visitor that can be saved, the count is one more, and DeleteVCookie
-- answers true and leaves the store as it was before.
pub delete_vcookie-save_vcookie :
    (store : StoreMap) (c : VCookie)
    → CanSave c false
    → Orders (vid c) store
    → find (vid c) store ≡ none
    → (delete_vcookie store c ≡ (store, false))
      × (store' : StoreMap) × (save_vcookie store c ≡ done (store', true))
      × Orders (vid c) store'
      × (get_vcookie_count store' ≡ suc (get_vcookie_count store))
      × (delete_vcookie store' c ≡ (store, true))
unfolding save_vcookie delete_vcookie get_vcookie_count
delete_vcookie-save_vcookie store c s o new =
    let (buffer, c1, saved, read, copy) =
      deserialize-serialize c false (found_by c) s (found_by-CanLoad c) in
    let inserted = insert (vid c) (c.last_hit_time_gmt, []) store in
    (
      rw (erase_absent (vid c) store new) refl,
      assign (vid c) (c.last_hit_time_gmt, buffer) inserted,
      rw saved refl,
      assign-insert-Orders (vid c) (c.last_hit_time_gmt, []) (c.last_hit_time_gmt, buffer) store o,
      length-assign (vid c) (c.last_hit_time_gmt, buffer) inserted
          ∙ length-insert (vid c) (c.last_hit_time_gmt, []) store new,
      rw
          (erase-assign-insert (vid c) (c.last_hit_time_gmt, []) (c.last_hit_time_gmt, buffer) store
            new)
          refl,
    )
