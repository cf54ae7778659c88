-- ===== src/Couchbase/Replies.antt =====
-- The single operations of VCCouchbaseStore, where libcouchbase does what it documents.
use elevator.Base.{
  ◌^◌, ◌<◌, ◌≡◌, ◌≢◌, refl, sym, ap, ◌∙◌, ◌&&◌, Bool, true, false, Option, none, some, Run, done,
  fault, Bytes, decimal, decimal-inj, arith,
}
use elevator.Base.Outcome.{◌>>=◌}
use elevator.Cookie.{VCookie}
use elevator.Codec.Write.{serialize}
use elevator.Codec.Read.{deserialize}
use elevator.Codec.RoundTrip.{CanSave, CanLoad, IsCopy, deserialize-serialize}
use elevator.Couchbase.{
  LcbError, lcb_success, lcb_key_enoent, lcb_error, GetReply, Lcb, key_of, save_vcookie,
  load_vcookie, load_reply, get_handler, after_get, returned, by_callback, store_handler,
  is_success,
}

-- A store that the server accepts is what a get of the key answers from then on, and it changes no
-- other key.
pub record IsLawful (lcb : Lcb) : Type 0 where
  pub get-store :
      (s s' : lcb.Server) (key bytes : Bytes)
      → lcb.store s key bytes ≡ (s', (lcb_success, some lcb_success))
      → lcb.get s' key ≡ (lcb_success, some (record { error = lcb_success; bytes = bytes }))
  pub get-store_ne :
      (s s' : lcb.Server) (key other bytes : Bytes) (called : LcbError × Option LcbError)
      → lcb.store s key bytes ≡ (s', called)
      → key ≢ other
      → lcb.get s' other ≡ lcb.get s other

abbrev answer : VCookie → LcbError × Option GetReply → Run (Bool × VCookie)
answer d reply = after_get d reply.0 reply.1

abbrev finish_save : {Server : Type 0} → Server × (LcbError × Option LcbError) → Run (Server × Bool)
finish_save r = returned r.1.0 (by_callback store_handler r.1.1) >>= λ saved. done (r.0, saved)

load_vcookie_answer :
    (lcb : Lcb) (s : lcb.Server) (d : VCookie)
    → load_vcookie lcb s d ≡ answer d (lcb.get s (key_of d))
unfolding load_vcookie
load_vcookie_answer lcb s d = refl

save_vcookie_finish :
    (lcb : Lcb) (s : lcb.Server) (c : VCookie)
    → save_vcookie lcb s c
      ≡ (serialize c true >>= λ buffer. finish_save (lcb.store s (key_of c) buffer))
unfolding save_vcookie
save_vcookie_finish lcb s c = refl

answer_success :
    (d d' : VCookie) (read : Bool) (bytes : Bytes)
    → deserialize d bytes ≡ done (read, d')
    → answer d (lcb_success, some (record { error = lcb_success; bytes = bytes })) ≡ done (true, d')
unfolding load_reply get_handler
answer_success d d' read bytes e = rw e refl

-- A reply that succeeds is reported as a success also where Deserialize refuses its bytes.
pub load_vcookie_any :
    (lcb : Lcb) (s : lcb.Server) (d d' : VCookie) (read : Bool) (bytes : Bytes)
    → lcb.get s (key_of d) ≡ (lcb_success, some (record { error = lcb_success; bytes = bytes }))
    → deserialize d bytes ≡ done (read, d')
    → load_vcookie lcb s d ≡ done (true, d')
load_vcookie_any lcb s d d' read bytes replied e =
    load_vcookie_answer lcb s d ∙ ap (answer d) replied ∙ answer_success d d' read bytes e

by_status :
    (d : VCookie) (status : LcbError) (bytes : Bytes)
    → is_success status ≡ false
    → answer d (lcb_success, some (record { error = status; bytes = bytes })) ≡ done (false, d)
unfolding load_reply get_handler
by_status d lcb_success bytes bad = absurd (cc bad)
by_status d lcb_key_enoent bytes bad = refl
by_status d (lcb_error n) bytes bad = refl

abbrev finish_save_as : {Server : Type 0} → Server → Run Bool → Run (Server × Bool)
finish_save_as t m = m >>= λ saved. done (t, saved)

returned_server :
    {Server : Type 0} (t t' : Server) (error : LcbError) (called : Option Bool) (saved : Bool)
    → finish_save_as t (returned error called) ≡ done (t', saved)
    → t ≡ t'
returned_server t t' lcb_success none saved h = absurd (cc h)
returned_server t t' lcb_success (some b) saved h = cc h
returned_server t t' lcb_key_enoent called saved h = cc h
returned_server t t' (lcb_error n) called saved h = cc h

-- An error that lcb_get returns, or calls the callback with, is reported, and leaves the cookie as it
-- is.
pub load_vcookie_error :
    (lcb : Lcb) (s : lcb.Server) (d : VCookie) (error : LcbError) (reply : GetReply)
    → lcb.get s (key_of d) ≡ (error, some reply)
    → (is_success error && is_success reply.error) ≡ false
    → load_vcookie lcb s d ≡ done (false, d)
unfolding after_get
load_vcookie_error lcb s d error reply replied bad =
    load_vcookie_answer lcb s d ∙ ap (answer d) replied ∙ by_error error reply.error reply.bytes bad
  where
    by_error :
        (error status : LcbError) (bytes : Bytes)
        → (is_success error && is_success status) ≡ false
        → answer d (error, some (record { error = status; bytes = bytes })) ≡ done (false, d)
    by_error lcb_success status bytes bad = by_status d status bytes bad
    by_error lcb_key_enoent status bytes bad = refl
    by_error (lcb_error n) status bytes bad = refl

module _ (lcb : Lcb) (law : IsLawful lcb) (s s' : lcb.Server) (c : VCookie) where
  -- SaveVCookie of a cookie that can be saved, if the server accepts it, reports success, and then
  -- LoadVCookie reads a copy into any empty cookie of the same user: the key is the user alone, so
  -- also where the visitor id is another.
  pub load_vcookie-save_vcookie_user :
      (buffer : Bytes)
      → CanSave c true
      → serialize c true ≡ done buffer
      → lcb.store s (key_of c) buffer ≡ (s', (lcb_success, some lcb_success))
      → (d : VCookie) → CanLoad d true
      → d.userid ≡ c.userid
      → (save_vcookie lcb s c ≡ done (s', true))
        × (d' : VCookie) × (load_vcookie lcb s' d ≡ done (true, d'))
        × IsCopy c true d d'
  load_vcookie-save_vcookie_user buffer can written accepted d empty same =
      let trip = deserialize-serialize c true d can empty in
      let equal : trip.0 ≡ buffer = cc (trip.2, written) in
      let key : key_of d ≡ key_of c = unfold key_of in ap decimal same in
      (
        save_vcookie_finish lcb s c
            ∙ ap (λ (r : Run Bytes). r >>= λ b. finish_save (lcb.store s (key_of c) b)) written
            ∙ ap finish_save accepted,
        trip.1,
        load_vcookie_any lcb s' d trip.1 true buffer
            (ap (lcb.get s') key ∙ law.get-store s s' (key_of c) buffer accepted)
            (ap (deserialize d) (sym equal) ∙ trip.3),
        trip.4,
      )

  -- SaveVCookie changes nothing for a user whose id is another, whatever the server answers.
  pub load_vcookie-save_vcookie_other :
      (saved : Bool) (d : VCookie)
      → save_vcookie lcb s c ≡ done (s', saved)
      → c.userid < 2 ^ 32
      → d.userid < 2 ^ 32
      → c.userid ≢ d.userid
      → load_vcookie lcb s' d ≡ load_vcookie lcb s d
  load_vcookie-save_vcookie_other saved d e small small' other =
      load_vcookie_answer lcb s' d
      ∙ ap (answer d) (by_buffer (serialize c true) (sym (save_vcookie_finish lcb s c) ∙ e))
      ∙ sym (load_vcookie_answer lcb s d)
    where
      apart : key_of c ≢ key_of d
      apart k =
          other (decimal-inj c.userid d.userid (omega arith) (omega arith) (unfold key_of in k))

      by_store :
          (buffer : Bytes) (r : lcb.Server × (LcbError × Option LcbError))
          → lcb.store s (key_of c) buffer ≡ r
          → finish_save r ≡ done (s', saved)
          → lcb.get s' (key_of d) ≡ lcb.get s (key_of d)
      by_store buffer r stored finished =
          law.get-store_ne s s' (key_of c) (key_of d) buffer r.1
            (stored
              ∙ ap (λ (t : lcb.Server). (t, r.1))
                  (returned_server r.0 s' r.1.0 (by_callback store_handler r.1.1) saved finished))
            apart

      by_buffer :
          (m : Run Bytes)
          → (m >>= λ buffer. finish_save (lcb.store s (key_of c) buffer)) ≡ done (s', saved)
          → lcb.get s' (key_of d) ≡ lcb.get s (key_of d)
      by_buffer (done buffer) finished =
          by_store buffer (lcb.store s (key_of c) buffer) refl finished
      by_buffer fault finished = absurd (cc finished)
      by_buffer Run.out_of_fuel finished = absurd (cc finished)
