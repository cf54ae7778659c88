-- ===== src/Couchbase.antt =====
-- class VCCouchbaseStore (VCCouchbaseStore.h, VCCouchbaseStore.cc): the store over libcouchbase, which
-- is a parameter. The messages on std::cerr are left out.
pub mod Bulk
pub mod Replies
pub mod Dangling
use elevator.Base.{
  ℕ, Bool, true, false, List, [], ◌∷◌, Option, none, some, Run, done, fault, Bytes, decimal,
}
use elevator.Base.Outcome.{◌>>=◌}
use elevator.Cookie.{VCookie}
use elevator.Codec.Write.{serialize}
use elevator.Codec.Read.{deserialize}

-- lcb_error_t: the two codes that the store tells apart, and the others.
pub data LcbError : Type 0 where
  lcb_success lcb_key_enoent : LcbError
  lcb_error : ℕ → LcbError

abbrev pub is_success : LcbError → Bool
is_success lcb_success = true
is_success lcb_key_enoent = false
is_success (lcb_error n) = false

-- What a callback for a get is called with.
pub record GetReply : Type 0 where
  pub error : LcbError
  pub bytes : Bytes

-- The client library in synchronous mode, over the state of the server: what a call returns, and
-- what it called the callback with before it returned, if it did.
pub record Lcb : Type 1 where
  pub Server : Type 0
  pub store : Server → Bytes → Bytes → Server × (LcbError × Option LcbError)
  pub get : Server → Bytes → LcbError × Option GetReply
  pub remove : Server → Bytes → Server × (LcbError × Option LcbError)

-- The constructor: `none` where it exits the program; a failed connection is only reported. The
-- arguments are what lcb_create and lcb_connect return.
abbrev pub on_created : LcbError → Option Bool
on_created connect_error = some (is_success connect_error)

unfoldable pub create_store : LcbError → LcbError → Option Bool
create_store lcb_success connect_error = on_created connect_error
create_store lcb_key_enoent connect_error = none
create_store (lcb_error n) connect_error = none

-- store_handler and remove_handler: what they write to `*retval`.
abbrev pub store_handler : LcbError → Bool
store_handler error = is_success error

abbrev pub remove_handler : LcbError → Bool
remove_handler error = is_success error

-- struct get_cookie; `error` is not set before the callback.
pub record GetCookie : Type 0 where
  pub buffer : Bytes
  pub error : Option LcbError

abbrev pub no_reply : GetCookie
no_reply = record { buffer = []; error = none }

unfoldable pub get_handler : GetReply → GetCookie → GetCookie
get_handler reply gc = record gc {
  error = some reply.error;
  buffer = elim reply.error [ lcb_success ↦ reply.bytes | _ ↦ gc.buffer ];
}

-- std::stringstream ss; ss << vcookie.GetUser ();
unfoldable pub key_of : VCookie → Bytes
unfolding decimal
key_of c = decimal c.userid

-- return retval, where the call returned `error`: if no callback was called, it was never written.
abbrev pub returned : LcbError → Option Bool → Run Bool
returned lcb_success none = fault
returned lcb_success (some retval) = done retval
returned lcb_key_enoent retval = done false
returned (lcb_error n) retval = done false

abbrev pub by_callback : (LcbError → Bool) → Option LcbError → Option Bool
by_callback handler none = none
by_callback handler (some error) = some (handler error)

-- What LoadVCookie does with the get_cookie: the answer of Deserialize is ignored.
unfoldable pub load_reply : VCookie → GetCookie → Run (Bool × VCookie)
load_reply c gc = elim gc.error [
  | none ↦ fault
  | some lcb_success ↦ (do (read, c') ← deserialize c gc.buffer; done (true, c'))
  | some lcb_key_enoent ↦ done (false, c)
  | some (lcb_error n) ↦ done (false, c)
]

abbrev pub after_get : VCookie → LcbError → Option GetReply → Run (Bool × VCookie)
unfolding load_reply get_handler
after_get c lcb_success none = load_reply c no_reply
after_get c lcb_success (some reply) = load_reply c (get_handler reply no_reply)
after_get c lcb_key_enoent reply = done (false, c)
after_get c (lcb_error n) reply = done (false, c)

module _ (lcb : Lcb) where
  unfoldable pub save_vcookie : lcb.Server → VCookie → Run (lcb.Server × Bool)
  unfolding key_of
  save_vcookie s c = do
    buffer ← serialize c true
    let (s', (error, called)) = lcb.store s (key_of c) buffer
    saved ← returned error (by_callback store_handler called)
    done (s', saved)

  unfoldable pub load_vcookie : lcb.Server → VCookie → Run (Bool × VCookie)
  unfolding key_of
  load_vcookie s c = let (error, reply) = lcb.get s (key_of c) in after_get c error reply

  unfoldable pub delete_vcookie : lcb.Server → VCookie → Run (lcb.Server × Bool)
  unfolding key_of
  delete_vcookie s c = do
    let (s', (error, called)) = lcb.remove s (key_of c)
    removed ← returned error (by_callback remove_handler called)
    done (s', removed)

-- The operations that this store does not have.
unfoldable pub delete_old_vcookies : ℕ → ℕ
delete_old_vcookies t = 0

unfoldable pub get_vcookie_count : ℕ
get_vcookie_count = 0

unfoldable pub get_vcookie : VCookie → ℕ → Bool × VCookie
get_vcookie c index = (false, c)
