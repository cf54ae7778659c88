-- ===== src/Store/Lost.antt =====
-- What the destructor does not store.
use elevator.Base.{ℕ, ◌≡◌, refl, subst, Bool, true, false, Run, done, Bytes}
use elevator.Base.Outcome.{done-inj}
use elevator.Cookie.{VCookie, construct, after_load, clear_flags, clear_cookie_var, set_purchase_id}
use elevator.Store.{VCookieStore, destroy}

loaded-modified :
    (r : Run (Bool × VCookie)) (c : VCookie) → after_load r ≡ done c → c.modified ≡ false
unfolding clear_flags
loaded-modified (Run.done (success, c0)) c e = subst (λ x. x.modified ≡ false) (done-inj _ c e) refl
loaded-modified Run.fault c e = absurd (cc e)
loaded-modified Run.out_of_fuel c e = absurd (cc e)

construct-modified :
    (load : VCookie → Run (Bool × VCookie)) (user vid_high vid_low : ℕ) (new_visitor : Bool)
    (c : VCookie)
    → construct load user vid_high vid_low new_visitor ≡ done c
    → c.modified ≡ false
unfolding construct clear_flags
construct-modified load user vid_high vid_low true c e =
    subst (λ (x : VCookie). x.modified ≡ false) (done-inj _ c e) refl
construct-modified load user vid_high vid_low false c e = loaded-modified _ c e

-- Whatever the store, the destructor stores nothing of a cookie that was only constructed, or in which
-- then only a variable was cleared or a purchase id that it had was set again.
pub destroy-construct :
    (store : VCookieStore) (s : store.State) (user vid_high vid_low : ℕ) (new_visitor : Bool)
    (c : VCookie)
    → construct (store.load_vcookie s) user vid_high vid_low new_visitor ≡ done c
    → (destroy store s c ≡ done s)
      × ((rid : ℕ) → destroy store s (clear_cookie_var c rid) ≡ done s)
      × ((p : Bytes)
          → (set_purchase_id c p).1 ≡ false
          → destroy store s (set_purchase_id c p).0 ≡ done s)
unfolding destroy clear_cookie_var set_purchase_id
destroy-construct store s user vid_high vid_low new_visitor c e =
    let clean = construct-modified (store.load_vcookie s) user vid_high vid_low new_visitor c e in
    (rw clean refl, λ rid. rw clean refl, λ p known. rw (clean, known) refl)
