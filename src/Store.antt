-- ===== src/Store.antt =====
-- class VCookieStore (abstraction/vcookiestore.h): what each store implements, and the batch
-- operations that loop over it.
pub mod Stores
pub mod Contract
pub mod Lost
use elevator.Base.{Bool, List, [], ◌∷◌, if◌then◌else◌, Run, done}
use elevator.Base.Outcome.{◌>>=◌}
use elevator.Cookie.{VCookie}

-- The operations that the program's other parts call, on the state of the store.
pub record VCookieStore : Type 1 where
  pub State : Type 0
  pub save_vcookie : State → VCookie → Run (State × Bool)
  pub load_vcookie : State → VCookie → Run (Bool × VCookie)

-- A call of the VCookieProcessedCallback, if there is one.
abbrev pub report : Bool → Bool → VCookie → List (Bool × VCookie) → List (Bool × VCookie)
report has_callback success c calls = if has_callback then (success, c) ∷ calls else calls

module _ (store : VCookieStore) where
  -- SaveVCookies: the store, and the calls of the callback in order.
  unfoldable pub save_vcookies :
      store.State → List VCookie → Bool → Run (store.State × List (Bool × VCookie))
  save_vcookies s [] has_callback = done (s, [])
  save_vcookies s (c ∷ cookies) has_callback = do
    (s', success) ← store.save_vcookie s c
    (s'', calls) ← save_vcookies s' cookies has_callback
    done (s'', report has_callback success c calls)

  -- LoadVCookies: the cookies, and the calls of the callback in order.
  unfoldable pub load_vcookies :
      store.State → List VCookie → Bool → Run (List VCookie × List (Bool × VCookie))
  load_vcookies s [] has_callback = done ([], [])
  load_vcookies s (c ∷ cookies) has_callback = do
    (success, c') ← store.load_vcookie s c
    (loaded, calls) ← load_vcookies s cookies has_callback
    done (c' ∷ loaded, report has_callback success c' calls)

  -- The destructor of a VCookie, by what it leaves in the store.
  unfoldable pub destroy : store.State → VCookie → Run store.State
  destroy s c = if c.modified then (do (s', saved) ← store.save_vcookie s c; done s') else done s
