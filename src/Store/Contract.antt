-- ===== src/Store/Contract.antt =====
-- What a client may rely on where a VCookieStore (abstraction/vcookiestore.h) keeps the visitors apart.
use elevator.Base.{ℕ, ◌≡◌, ◌≢◌, Bool, done}
use elevator.Cookie.{VCookie}
use elevator.Store.{VCookieStore}

-- The visitor of a cookie: the user and the two parts of the visitor id.
abbrev pub Visitor : Type 0
Visitor = ℕ × ℕ × ℕ

abbrev pub visitor : VCookie → Visitor
visitor c = (c.userid, c.visid_high, c.visid_low)

-- A cookie, as one of the visitor `v`.
abbrev pub as_visitor : Visitor → VCookie → VCookie
as_visitor v c = record c { userid = v.0; visid_high = v.1; visid_low = v.2 }

-- The visitors that the store serves, and the states in which it does.
module _ (st : VCookieStore) (IsServed : Visitor → Type 0) (IsSound : st.State → Type 0) where
  -- LoadVCookie does the same for the visitor in two states.
  abbrev pub Agree : Visitor → st.State → st.State → Type 0
  Agree v s t =
      (d : VCookie) → st.load_vcookie s (as_visitor v d) ≡ st.load_vcookie t (as_visitor v d)

  pub record KeepsApart : Type 0 where
    pub sound :
        (s s' : st.State) (c : VCookie) (saved : Bool)
        → IsServed (visitor c)
        → IsSound s
        → st.save_vcookie s c ≡ done (s', saved)
        → IsSound s'
    -- SaveVCookie of one visitor leaves what is loaded for another.
    pub others :
        (s s' : st.State) (c : VCookie) (saved : Bool) (v : Visitor)
        → IsServed (visitor c)
        → IsServed v
        → v ≢ visitor c
        → IsSound s
        → st.save_vcookie s c ≡ done (s', saved)
        → Agree v s' s
    -- What is loaded after SaveVCookie does not depend on what was there before.
    pub own :
        (s t s' : st.State) (c : VCookie) (saved : Bool)
        → st.save_vcookie s c ≡ done (s', saved)
        → (t' : st.State) × (st.save_vcookie t c ≡ done (t', saved)) × Agree (visitor c) s' t'
    -- LoadVCookie does not change whose cookie it is.
    pub loaded :
        (s : st.State) (c c' : VCookie) (found : Bool)
        → st.load_vcookie s c ≡ done (found, c')
        → visitor c' ≡ visitor c
