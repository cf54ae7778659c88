-- ===== src/Nop.antt =====
-- class VCStoreNOP (VCStoreNOP.h): a store that keeps nothing. It has no state, so each method is
-- its answer; LoadVCookie, DeleteVCookie and GetVCookie leave the cookie as it is.
use elevator.Base.{ℕ, Bool, true, false, Run, done}
use elevator.Cookie.{VCookie}

unfoldable pub save_vcookie : VCookie → Bool
save_vcookie c = true

unfoldable pub load_vcookie : VCookie → Run (Bool × VCookie)
load_vcookie c = done (false, c)

unfoldable pub delete_old_vcookies : ℕ → ℕ
delete_old_vcookies t = 0

unfoldable pub delete_vcookie : VCookie → Bool × VCookie
delete_vcookie c = (false, c)

unfoldable pub get_vcookie_count : ℕ
get_vcookie_count = 0

unfoldable pub get_vcookie : VCookie → ℕ → Bool × VCookie
get_vcookie c index = (false, c)
