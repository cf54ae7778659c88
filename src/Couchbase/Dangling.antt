-- ===== src/Couchbase/Dangling.antt =====
-- The pointers to local variables that the batch operations of VCCouchbaseStore leave to libcouchbase.
use elevator.Base.{
  ℕ, suc, ◌≡◌, refl, All, subst, Bool, true, false, List, [], ◌∷◌, ◌++◌, none, some, length, Run,
  done, fault, Bytes, arith,
}
use elevator.Base.Outcome.{◌>>=◌}
use elevator.Cookie.{VCookie}
use elevator.Codec.Write.{serialize}
use elevator.Couchbase.{LcbError, lcb_success, lcb_key_enoent, lcb_error, key_of}
use elevator.Couchbase.Bulk.{
  Locals, enter, leave, use_local, build_commands, read_keys, AsyncLcb, load_vcookies, Queue,
  assert_success, queue_stores, store_replies, bulk_store_handler, save_vcookies, no_queue,
}

-- The variable of a round that is over.
use_local-leave :
    {A : Type 0} (locals : Locals A) (v : A)
    → use_local (leave (enter locals v) (length locals)) (length locals) ≡ fault
use_local-leave [] v = refl
use_local-leave (none ∷ locals) v = use_local-leave locals v
use_local-leave (some w ∷ locals) v = use_local-leave locals v

read_keys-build_commands :
    (cookies : List VCookie) (i : ℕ) (ls : Locals Bytes) (ps : List ℕ) (objects : List (Bytes × ℕ))
    → let k =
        build_commands cookies i
          (record { locals = none ∷ ls; keys = 0 ∷ ps; objects = objects }) in
      read_keys k.locals k.keys ≡ fault
unfolding build_commands read_keys
read_keys-build_commands [] i ls ps objects = refl
read_keys-build_commands (c ∷ cookies) i ls ps objects =
    read_keys-build_commands cookies (suc i) _ _ _

-- LoadVCookies of one cookie or more uses keys whose lifetime is over: each command points into a
-- string of a round of the loop that has ended.
pub load_vcookies-fault :
    (lcb : AsyncLcb) (s : lcb.Server) (c : VCookie) (cookies : List VCookie) (has_callback : Bool)
    → load_vcookies lcb s (c ∷ cookies) has_callback ≡ fault
unfolding load_vcookies
load_vcookies-fault lcb s c cookies has_callback =
    rw (read_keys-build_commands cookies 1 [] [] _) refl

-- A queue with a callback that points to a variable which is gone.
data IsGone : Queue → Type 0 where
  gone :
      (ls : Locals Bool) (ps : List ℕ) (x : Bytes × Bytes) (stores : List (Bytes × Bytes))
      → IsGone (record { locals = none ∷ ls; retvals = 0 ∷ ps; stores = x ∷ stores })

module _ (lcb : AsyncLcb) (s : lcb.Server) where
  after_store :
      (q' : Queue) (error : LcbError) (rest : Run Queue)
      → (rest ≡ done q' → IsGone q')
      → (assert_success error >>= λ ok. rest) ≡ done q'
      → IsGone q'
  after_store q' lcb_success rest k h = k h
  after_store q' lcb_key_enoent rest k h = absurd (cc h)
  after_store q' (lcb_error n) rest k h = absurd (cc h)

  by_buffer :
      (q' : Queue) (m : Run Bytes) (error : Bytes → LcbError) (rest : Bytes → Run Queue)
      → ((buffer : Bytes) → rest buffer ≡ done q' → IsGone q')
      → (m >>= λ buffer. (assert_success (error buffer) >>= λ ok. rest buffer)) ≡ done q'
      → IsGone q'
  by_buffer q' (done buffer) error rest k h =
      after_store q' (error buffer) (rest buffer) (k buffer) h
  by_buffer q' fault error rest k h = absurd (cc h)
  by_buffer q' Run.out_of_fuel error rest k h = absurd (cc h)

  queue_stores-IsGone :
      (cookies : List VCookie) (q q' : Queue)
      → IsGone q
      → queue_stores lcb s cookies q ≡ done q'
      → IsGone q'
  unfolding queue_stores
  queue_stores-IsGone [] q q' g h = subst IsGone (cc h) g
  queue_stores-IsGone (c ∷ cookies) q q' (gone ls ps x stores) h =
      by_buffer q' (serialize c true) (lcb.store s (key_of c)) _
        (λ buffer. queue_stores-IsGone cookies _ q' (gone _ _ _ _)) h

  gone_fault :
      (ls : Locals Bool) (ps : List ℕ) (errors : List LcbError) (n : ℕ)
      → length errors ≡ suc n
      → store_replies (none ∷ ls) (0 ∷ ps) errors ≡ fault
  unfolding store_replies bulk_store_handler
  gone_fault ls ps [] n h = absurd (omega arith)
  gone_fault ls ps (error ∷ errors) n h = refl

  first_IsGone :
      (c : VCookie) (cookies : List VCookie) (q : Queue)
      → queue_stores lcb s (c ∷ cookies) no_queue ≡ done q
      → IsGone q
  unfolding queue_stores
  first_IsGone c cookies q h =
      by_buffer q (serialize c true) (lcb.store s (key_of c)) _
        (λ buffer. queue_stores-IsGone cookies _ q (gone [] [] _ [])) h

  -- The cookie can be written, and lcb_store takes the bytes.
  abbrev pub IsTaken : VCookie → Type 0
  IsTaken c =
      (buffer : Bytes) × (serialize c true ≡ done buffer)
      × (lcb.store s (key_of c) buffer ≡ lcb_success)

  -- The queue with the store of one more cookie.
  abbrev queued : Queue → VCookie → Bytes → Queue
  queued q c buffer = record {
    locals = leave (enter q.locals false) (length q.locals);
    retvals = q.retvals ++ (length q.locals ∷ []);
    stores = q.stores ++ ((key_of c, buffer) ∷ []);
  }

  queue_stores-done :
      (cookies : List VCookie) (q : Queue)
      → All IsTaken cookies
      → (q' : Queue) × (queue_stores lcb s cookies q ≡ done q')
  unfolding queue_stores
  queue_stores-done [] q h = (q, refl)
  queue_stores-done (c ∷ cookies) q ((buffer, written, taken), h) =
      let (q', e) = queue_stores-done cookies (queued q c buffer) h in (q', rw (written, taken) e)

  answer-fault :
      (q : Queue)
      → ((stores : List (Bytes × Bytes)) → length (lcb.wait_store s stores).1 ≡ length stores)
      → IsGone q
      → store_replies q.locals q.retvals (lcb.wait_store s q.stores).1 ≡ fault
  answer-fault q answered (gone ls ps x stores) =
      gone_fault ls ps (lcb.wait_store s (x ∷ stores)).1 (length stores) (answered (x ∷ stores))

  -- SaveVCookies of one cookie or more that can be written and that lcb_store takes, where lcb_wait calls the
  -- callback for each store: the loop queues the stores, and the callback then writes to a variable of a round of the
  -- loop that has ended, which is the fault that SaveVCookies ends in.
  pub save_vcookies-fault :
      (c : VCookie) (cookies : List VCookie)
      → ((stores : List (Bytes × Bytes)) → length (lcb.wait_store s stores).1 ≡ length stores)
      → All IsTaken (c ∷ cookies)
      → (q : Queue) × (queue_stores lcb s (c ∷ cookies) no_queue ≡ done q)
        × (store_replies q.locals q.retvals (lcb.wait_store s q.stores).1 ≡ fault)
        × (save_vcookies lcb s (c ∷ cookies) ≡ fault)
  unfolding save_vcookies
  save_vcookies-fault c cookies answered taken =
      let (q, queued) = queue_stores-done (c ∷ cookies) no_queue taken in
      let dead = answer-fault q answered (first_IsGone c cookies q queued) in
      (q, queued, dead, rw (queued, dead) refl)
