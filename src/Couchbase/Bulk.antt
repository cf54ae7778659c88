-- ===== src/Couchbase/Bulk.antt =====
-- The batch operations of VCCouchbaseStore, in asynchronous mode. What lies in local variables is
-- modelled with its lifetime: a variable of the loop's body is gone when the round ends, and a use
-- through a pointer that is left of it is a fault.
use elevator.Base.{
  get_elem?, ℕ, zero, suc, Bool, true, false, List, [], ◌∷◌, ◌++◌, Option, none, some, length, set,
  Run, done, fault, Bytes, bytes_eq, if◌then◌else◌,
}
use elevator.Base.Outcome.{◌>>=◌}
use elevator.Cookie.{VCookie}
use elevator.Codec.Write.{serialize}
use elevator.Codec.Read.{deserialize}
use elevator.Couchbase.{LcbError, lcb_success, lcb_key_enoent, lcb_error, is_success, key_of}

-- The local variables of the loop: `none` once the lifetime of one has ended.
abbrev pub Locals : Type 0 → Type 0
Locals A = List (Option A)

abbrev pub enter : {A : Type 0} → Locals A → A → Locals A
enter locals v = locals ++ (some v ∷ [])

abbrev pub leave : {A : Type 0} → Locals A → ℕ → Locals A
leave locals p = set locals p none

-- A use of the variable at `p`.
abbrev pub use_local : {A : Type 0} → Locals A → ℕ → Run A
use_local [] p = fault
use_local (some v ∷ locals) zero = done v
use_local (none ∷ locals) zero = fault
use_local (v ∷ locals) (suc p) = use_local locals p

-- A reply to a get: the key, the error and the bytes.
pub record BulkReply : Type 0 where
  pub key : Bytes
  pub status : LcbError
  pub bytes : Bytes

-- The client library in asynchronous mode. lcb_get copies the keys and lcb_store the key and the
-- bytes; lcb_wait then calls the callback for each, with what the server says.
pub record AsyncLcb : Type 1 where
  pub Server : Type 0
  pub get : Server → List Bytes → LcbError
  pub wait_get : Server → List Bytes → List BulkReply
  pub store : Server → Bytes → Bytes → LcbError
  pub wait_store : Server → List (Bytes × Bytes) → Server × List LcbError

-- bulk_cookie::objects, from a key to the place of the cookie in the batch. A key that has none gets
-- the null pointer.
abbrev pub Objects : Type 0
Objects = List (Bytes × ℕ)

unfoldable pub put_object : Bytes → ℕ → Objects → Objects
put_object key i [] = (key, i) ∷ []
put_object key i ((k, j) ∷ objects) =
    if bytes_eq k key then (key, i) ∷ objects else (k, j) ∷ put_object key i objects

unfoldable pub get_object : Bytes → Objects → Option ℕ
get_object key [] = none
get_object key ((k, j) ∷ objects) = if bytes_eq k key then some j else get_object key objects

-- What the loop of LoadVCookies leaves: the lifetimes, the pointers to the keys, and the map.
pub record Commands : Type 0 where
  pub locals : Locals Bytes
  pub keys : List ℕ
  pub objects : Objects

-- The loop of LoadVCookies; `key` lives for one round, and the command keeps key.data ().
unfoldable pub build_commands : List VCookie → ℕ → Commands → Commands
build_commands [] i k = k
build_commands (c ∷ cookies) i k =
    let p = length k.locals in
    build_commands cookies (suc i) (record {
      locals = leave (enter k.locals (key_of c)) p;
      keys = k.keys ++ (p ∷ []);
      objects = put_object (key_of c) i k.objects;
    })

-- lcb_get reads the keys that the commands point to.
unfoldable pub read_keys : Locals Bytes → List ℕ → Run (List Bytes)
read_keys locals [] = done []
read_keys locals (p ∷ ps) = do
  key ← use_local locals p
  rest ← read_keys locals ps
  done (key ∷ rest)

-- A batch in progress: the cookies, and the calls of the callback.
pub record Batch : Type 0 where
  pub cookies : List VCookie
  pub calls : List (Bool × VCookie)

-- Deserialize into the cookie, on success; its answer is ignored.
abbrev pub fill_object : VCookie → BulkReply → LcbError → Run VCookie
fill_object c reply lcb_success = do (read, c') ← deserialize c reply.bytes; done c'
fill_object c reply lcb_key_enoent = done c
fill_object c reply (lcb_error n) = done c

abbrev pub fill_at : Batch → ℕ → BulkReply → Bool → Option VCookie → Run Batch
fill_at batch i reply has_callback none = fault
fill_at batch i reply has_callback (some c) = do
  c' ← fill_object c reply reply.status
  done (record {
    cookies = set batch.cookies i c';
    calls =
        if has_callback then batch.calls ++ ((is_success reply.status, c') ∷ []) else batch.calls;
  })

-- bulk_get_handler; a key with no object fails its assertion.
unfoldable pub bulk_get_handler : Objects → Bool → BulkReply → Batch → Run Batch
unfolding get_object
bulk_get_handler objects has_callback reply batch = elim (get_object reply.key objects) [
  | none ↦ fault
  | some i ↦ fill_at batch i reply has_callback (get_elem? batch.cookies i)
]

-- lcb_wait, over the replies
unfoldable pub handle_replies : Objects → Bool → List BulkReply → Batch → Run Batch
handle_replies objects has_callback [] batch = done batch
handle_replies objects has_callback (reply ∷ replies) batch = do
  batch' ← bulk_get_handler objects has_callback reply batch
  handle_replies objects has_callback replies batch'

-- assert (error == LCB_SUCCESS)
abbrev pub assert_success : LcbError → Run (Unit {0})
assert_success lcb_success = done tt
assert_success lcb_key_enoent = fault
assert_success (lcb_error n) = fault

abbrev pub no_commands : Commands
no_commands = record { locals = []; keys = []; objects = [] }

-- What the loop of SaveVCookies leaves: the lifetimes of `retval`, the pointers to it that the
-- callbacks get, and what is to be stored.
pub record Queue : Type 0 where
  pub locals : Locals Bool
  pub retvals : List ℕ
  pub stores : List (Bytes × Bytes)

abbrev pub no_queue : Queue
no_queue = record { locals = []; retvals = []; stores = [] }

-- bulk_store_handler: `*retval = …`
unfoldable pub bulk_store_handler : Locals Bool → ℕ → LcbError → Run (Locals Bool)
bulk_store_handler locals p error = do
  old ← use_local locals p
  done (set locals p (some (is_success error)))

-- lcb_wait, over the replies in the order of the calls
unfoldable pub store_replies : Locals Bool → List ℕ → List LcbError → Run (Locals Bool)
store_replies locals [] errors = done locals
store_replies locals (p ∷ ps) [] = done locals
store_replies locals (p ∷ ps) (error ∷ errors) = do
  locals' ← bulk_store_handler locals p error
  store_replies locals' ps errors

module _ (lcb : AsyncLcb) where
  unfoldable pub load_vcookies : lcb.Server → List VCookie → Bool → Run Batch
  unfolding build_commands read_keys handle_replies
  load_vcookies s cookies has_callback = do
    let k = build_commands cookies 0 no_commands
    keys ← read_keys k.locals k.keys
    ok ← assert_success (lcb.get s keys)
    handle_replies k.objects has_callback (lcb.wait_get s keys)
        (record { cookies = cookies; calls = [] })

  -- The loop of SaveVCookies; `retval` lives for one round. Its value before the callback is any.
  unfoldable pub queue_stores : lcb.Server → List VCookie → Queue → Run Queue
  queue_stores s [] q = done q
  queue_stores s (c ∷ cookies) q = do
    buffer ← serialize c true
    let p = length q.locals
    ok ← assert_success (lcb.store s (key_of c) buffer)
    queue_stores s cookies (record {
      locals = leave (enter q.locals false) p;
      retvals = q.retvals ++ (p ∷ []);
      stores = q.stores ++ ((key_of c, buffer) ∷ []);
    })

  -- SaveVCookies; the callback is never called.
  unfoldable pub save_vcookies : lcb.Server → List VCookie → Run lcb.Server
  unfolding queue_stores store_replies
  save_vcookies s cookies = do
    q ← queue_stores s cookies no_queue
    let (s', errors) = lcb.wait_store s q.stores
    locals ← store_replies q.locals q.retvals errors
    done s'
