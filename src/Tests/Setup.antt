-- ===== src/Tests/Setup.antt =====
-- The unit tests CreateVCookie and CreateVCookie2 (abstraction/test.cpp), with the cookie that they set
-- up.
use elevator.Base.{ℕ, ◌+◌, ◌-◌, ◌%◌, ◌^◌, ◌≡◌, refl, true, ◌++◌, done, Bytes, not}
use elevator.Base.Outcome.{◌>>=◌}
use elevator.Base.Text.{codes}
use elevator.Cookie.{
  VCookie, construct, clear_flags, set_first_hit_time_gmt, set_first_hit_referrer,
  set_first_hit_url, set_first_hit_pagename, set_last_hit_time_gmt, set_last_hit_time_visitor_local,
  set_last_visit_num, set_last_purchase_time_gmt, set_last_purchase_num, set_merchandising,
  set_purchase_id, clear_cookie_var, set_cookie_var,
}
use elevator.Tests.Scenarios.{set_first, set_linear, visitor}

abbrev merchandising : Bytes
merchandising =
    codes "asl;dfkjasd;flkjasdf;lkjasdf;lkajsdf;lkasjdf;laksdjf;alksdjfa;lksdjf"
    ++ (codes "a;lksdjfa;lsdkfja;lsdkfjas;ldkfjas;ldfkja;lsdkfja;sldkfjals;dkfjas;l"
        ++ (codes "dkfjasl;kdfjasl;kdfjas;ldkfjas;ldkfjasl;dkfja;sldkfjasl;kdjfal;skdjf"
            ++ (codes "asl;kdjfals;dkfjasl;dkfjasl;kdjqert;lkajsdg;laketn;aksdbnvxc;kgnasd;"
                ++ (codes "tkjnasd;gkjncb;akjsdnta;skdjgnb;lkdgjans;ckvjnad;ksfgajsd;flkgjvnc;k"
                    ++ (codes "ajsdgfna;skdfnv;kcxbm,vna;skedjtrhnasd;kgjvnxcz;kjgadnskgljbzncvlkjs"
                        ++ (codes
                              "mdng;kjdfnlkagsdmng;dkljcmnga;sdkjfnav;lckxj,mfgna;ldskgj;zldsvmbn;z"
                            ++ (codes
                                  "xlkfmnfd;kglb,mnzx;flkjads,mnf;alksd,mgnvbc;kxj,fmasjdn;lkfjasnd;vkj"
                                ++ (codes "nasfx;"))))))))

-- SetupVCookie, up to the variables
unfoldable setup_members : ℕ → VCookie → VCookie
setup_members t vc =
    let c1 = set_first_hit_time_gmt vc ((t + 2 ^ 64 - 100000) % 2 ^ 64) in
    let c2 = set_last_hit_time_gmt c1 t in
    let c3 = set_last_hit_time_visitor_local c2 ((t + 2 ^ 64 - 25200) % 2 ^ 64) in
    let c4 = set_last_visit_num c3 ((c3.last_visit_num + 1) % 2 ^ 32) in
    let c5 = set_last_purchase_time_gmt c4 ((t + 2 ^ 64 - 10000) % 2 ^ 64) in
    let c6 = set_first_hit_referrer c5 (codes "Some Site") in
    let c7 = set_first_hit_url c6 (codes "http://www.acme.com/a/b/d/x.html") in
    let c8 = set_first_hit_pagename c7 (codes "Some Page") in
    let c9 = set_last_purchase_num c8 5 in
    let c10 = set_merchandising c9 merchandising in
    let p1 = (set_purchase_id c10 (codes "pid1")).0 in
    let p2 = (set_purchase_id p1 (codes "pid2")).0 in
    let p3 = (set_purchase_id p2 (codes "pid3")).0 in
    let p4 = (set_purchase_id p3 (codes "pid4")).0 in
    let p5 = (set_purchase_id p4 (codes "pid5")).0 in (set_purchase_id p5 (codes "pid6")).0

-- SetupVCookie, the variables
unfoldable setup_variables : ℕ → VCookie → VCookie
setup_variables t v0 =
    let v1 = set_first v0 1 (codes "Var1") (t + 1) 1 in
    let v2 = set_first v1 9 (codes "Var9") (t + 9) 9 in
    let v3 = set_first v2 5 (codes "Var5") (t + 5) 5 in
    let v4 = set_first v3 7 (codes "Var7") (t + 7) 7 in
    let v5 = set_first v4 3 (codes "Var3") (t + 3) 3 in
    let v6 = set_first v5 8 (codes "Var8") (t + 8) 8 in
    let v7 = set_first v6 4 (codes "Var4") (t + 4) 4 in
    let v8 = set_first v7 2 (codes "Var2") (t + 2) 2 in
    let v9 = set_first v8 6 (codes "Var6") (t + 6) 6 in
    let v10 = set_first v9 10 (codes "Var10") (t + 10) 10 in
    let v11 = set_first v10 13 (codes "Var13") (t + 13) 13 in
    let v12 = set_first v11 12 (codes "Var12") (t + 12) 12 in
    let v13 = set_first v12 11 (codes "Var11") (t + 11) 11 in
    let v14 = clear_cookie_var v13 11 in
    let v15 = set_linear v14 9 (codes "Var9b") (t + 99) 19 5 in
    let v16 = set_linear v15 9 (codes "Var9c") (t + 999) 29 5 in
    let v17 = set_linear v16 9 (codes "Var9d") (t + 9999) 39 5 in
    let v18 = set_linear v17 9 (codes "Var9e") (t + 99999) 49 5 in
    let v19 = set_linear v18 9 (codes "Var9f") (t + 999999) 59 5 in
    let v20 = set_linear v19 9 (codes "Var9g") (t + 9999999) 69 5 in
    set_linear v20 9 (codes "Var9h") (t + 99999999) 79 5

-- SetupVCookie
unfoldable setup_vcookie : ℕ → VCookie → VCookie
setup_vcookie t vc = setup_variables t (setup_members t vc)

-- CreateVCookie
create_vcookie_pass : (visitor >>= λ c. done (not c.modified)) ≡ done true
unfolding construct clear_flags
create_vcookie_pass = refl

-- CreateVCookie2, at any time and from any cookie
create_vcookie2_pass : (t : ℕ) (c : VCookie) → (setup_vcookie t c).modified ≡ true
unfolding setup_vcookie setup_variables setup_members set_purchase_id set_cookie_var
    clear_cookie_var
create_vcookie2_pass t c = refl
