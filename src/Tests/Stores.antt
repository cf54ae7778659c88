-- ===== src/Tests/Stores.antt =====
-- The batch operations and the store over libcouchbase at inputs that meet the theorems' hypotheses.
use elevator.Base.{
  ℕ, ◌≡◌, ◌≢◌, refl, sym, ap, ◌∙◌, inl, inr, arith, true, false, List, [], ◌∷◌, Option, none, some,
  if◌then◌else◌, Bool-cases, length, done, fault, Bytes, bytes_eq, bytes_eq_refl, bytes_eq→eq,
}
use elevator.Cookie.{VCookie, initial, construct, clear_flags, clear_cookie_var, set_purchase_id}
use elevator.Codec.Write.{serialize}
use elevator.Codec.RoundTrip.{IsCopy, deserialize-serialize}
use elevator.Nop
use elevator.Store.{load_vcookies, destroy}
use elevator.Store.Lost.{destroy-construct}
use elevator.Store.Stores.{nop, in_memory}
use elevator.Couchbase.{
  LcbError, lcb_success, lcb_key_enoent, GetReply, Lcb, key_of, save_vcookie, load_vcookie,
}
use elevator.Couchbase.Bulk
use elevator.Couchbase.Bulk.{AsyncLcb, BulkReply}
use elevator.Couchbase.Replies.{IsLawful, load_vcookie-save_vcookie_user}
use elevator.Couchbase.Bulk.{Queue, queue_stores, store_replies, no_queue}
use elevator.Couchbase.Dangling.{IsTaken, load_vcookies-fault, save_vcookies-fault}
use elevator.Tests.{cookie, cookie-CanSave, empty-CanLoad}

-- A batch that the store without data cannot load, with a report for each cookie.
load_vcookies-nop :
    load_vcookies nop tt (initial 1 2 3 false ∷ []) true
    ≡ done (initial 1 2 3 false ∷ [], (false, initial 1 2 3 false) ∷ [])
unfolding load_vcookies Nop.load_vcookie
load_vcookies-nop = refl

-- A server that accepts every store and remembers the last bytes of each key.
abbrev Documents : Type 0
Documents = List (Bytes × Bytes)

abbrev lookup : Bytes → Documents → Option Bytes
lookup key [] = none
lookup key ((k, bytes) ∷ docs) = if bytes_eq k key then some bytes else lookup key docs

abbrev reply_of : Option Bytes → GetReply
reply_of none = record { error = lcb_key_enoent; bytes = [] }
reply_of (some bytes) = record { error = lcb_success; bytes = bytes }

abbrev remember : Lcb
remember = record {
  Server = Documents;
  store = λ s key bytes. ((key, bytes) ∷ s, (lcb_success, some lcb_success));
  get = λ s key. (lcb_success, some (reply_of (lookup key s)));
  remove = λ s key. (s, (lcb_success, some lcb_key_enoent));
}

remember-IsLawful : IsLawful remember
remember-IsLawful = record {
  get-store = λ s s' key bytes e.
      let docs : (key, bytes) ∷ s ≡ s' =
        ap (λ (r : Documents × (LcbError × Option LcbError)). r.0) e in
      ap (λ (t : Documents). remember.get t key) (sym docs) ∙ rw (bytes_eq_refl key) refl;
  get-store_ne = λ s s' key other bytes called e apart.
      let docs : (key, bytes) ∷ s ≡ s' =
        ap (λ (r : Documents × (LcbError × Option LcbError)). r.0) e in
      ap (λ (t : Documents). remember.get t other) (sym docs) ∙ passed s key other bytes apart;
}
  where
    passed :
        (s : Documents) (key other bytes : Bytes)
        → key ≢ other
        → remember.get ((key, bytes) ∷ s) other ≡ remember.get s other
    passed s key other bytes apart = elim (Bool-cases (bytes_eq key other)) [
      | inl same ↦ absurd (apart (bytes_eq→eq key other same))
      | inr differ ↦ rw differ refl
    ]

written : (buffer : Bytes) × (serialize cookie true ≡ done buffer)
written =
    let trip =
      deserialize-serialize cookie true (initial 7 8 9 false) (cookie-CanSave true) empty-CanLoad in
    (trip.0, trip.2)

abbrev documents : Documents
documents = (key_of cookie, written.0) ∷ []

load_vcookie-save_vcookie_user_example :
    (save_vcookie remember [] cookie ≡ done (documents, true))
    × (d' : VCookie) × (load_vcookie remember documents (initial 7 8 9 false) ≡ done (true, d'))
    × IsCopy cookie true (initial 7 8 9 false) d'
load_vcookie-save_vcookie_user_example =
    load_vcookie-save_vcookie_user remember remember-IsLawful [] documents cookie written.0
      (cookie-CanSave true) written.1 refl (initial 7 8 9 false) empty-CanLoad refl

stored : save_vcookie remember [] cookie ≡ done (documents, true)
stored =
    (load_vcookie-save_vcookie_user remember remember-IsLawful [] documents cookie written.0
      (cookie-CanSave true) written.1 refl (initial 7 8 9 false) empty-CanLoad refl).0

-- The answers to a batch of stores: each succeeds.
abbrev all_succeed : List (Bytes × Bytes) → List LcbError
all_succeed [] = []
all_succeed (x ∷ stores) = lcb_success ∷ all_succeed stores

abbrev accepting : AsyncLcb
accepting = record {
  Server = Unit {0};
  get = λ s keys. lcb_success;
  wait_get = λ s keys. [];
  store = λ s key bytes. lcb_success;
  wait_store = λ s stores. (s, all_succeed stores);
}

length-all_succeed : (stores : List (Bytes × Bytes)) → length (all_succeed stores) ≡ length stores
length-all_succeed [] = refl
length-all_succeed (x ∷ stores) = omega (arith, length-all_succeed stores)

load_vcookies-fault_example : Bulk.load_vcookies accepting tt (cookie ∷ []) true ≡ fault
load_vcookies-fault_example = load_vcookies-fault accepting tt cookie [] true

cookie-IsTaken : IsTaken accepting tt cookie
cookie-IsTaken =
    let (buffer, c', written, loaded, copy) =
      deserialize-serialize cookie true (initial 7 8 9 false) (cookie-CanSave true) empty-CanLoad in
    (buffer, written, refl)

save_vcookies-fault_example :
    (q : Queue) × (queue_stores accepting tt (cookie ∷ []) no_queue ≡ done q)
    × (store_replies q.locals q.retvals (accepting.wait_store tt q.stores).1 ≡ fault)
    × (Bulk.save_vcookies accepting tt (cookie ∷ []) ≡ fault)
save_vcookies-fault_example =
    save_vcookies-fault accepting tt cookie [] length-all_succeed (cookie-IsTaken, tt)

abbrev found : VCookie
found = clear_flags (initial 7 8 9 true)

destroy-construct_example :
    (destroy in_memory [] found ≡ done [])
    × ((rid : ℕ) → destroy in_memory [] (clear_cookie_var found rid) ≡ done [])
    × ((p : Bytes)
        → (set_purchase_id found p).1 ≡ false
        → destroy in_memory [] (set_purchase_id found p).0 ≡ done [])
destroy-construct_example =
    destroy-construct in_memory [] 7 8 9 true found (unfold construct clear_flags in refl)
