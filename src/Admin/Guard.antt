-- ===== src/Admin/Guard.antt =====
-- Who may change the tables.
use safe_cloud.Prelude.{
  String, Option, none, some, Bool, true, false, inl, inr, ◌==◌, ◌||◌, ◌≡◌, ◌≢◌, sym, ap, ◌⊎◌, refl,
  arith, eq_iff, text_or, if◌then◌else◌,
}
use safe_cloud.Exec.{pure, raise}
use safe_cloud.Panel.{verify_csrf, compare_digest}
use safe_cloud.Panel.Login.{compare_digest-eq}
use safe_cloud.Admin.Tables.{Panel, Admin}
use safe_cloud.Admin.Requests.{Request, Host, Page, get_or, after_csrf, guarded}
use safe_cloud.Admin.Scanners.{scanner_new_submit, scanner_edit_submit, scanner_delete}
use safe_cloud.Admin.Profiles.{profile_new_submit, profile_edit_submit, profile_delete}
use safe_cloud.Admin.Settings.{
  encrypted_files_submit, api_client_create, api_client_revoke, api_client_rotate, security_submit,
  rescan,
}
use safe_cloud.Admin.Actions.{Action, handle}

-- The session is logged in and has a token, and the form has the same token.
abbrev pub IsAuthorised : Request → Type 0
IsAuthorised q =
    (q.session.authenticated ≡ true)
    × ((token : String) × (token ≢ "")
        × (q.session.csrf_token ≡ some token)
        × (q.form.get "csrf_token" ≡ some token))

expected_token : (o : Option String) (t : String) → text_or o "" ≡ t → t ≢ "" → o ≡ some t
expected_token none t e n = absurd (n (sym e))
expected_token (some s) t e n = go (s == "") refl e
  where
    go :
        (b : Bool)
        → (s == "") ≡ b
        → (if b then "" else s) ≡ t
        → ◌≡◌ {A = Option String} (some s) (some t)
    go true d e = absurd (n (sym e))
    go false d e = ap some e

submitted_token :
    (o : Option String) (t : String) → (elim o [ none ↦ "" | some v ↦ v ]) ≡ t → t ≢ "" → o ≡ some t
submitted_token none t e n = absurd (n (sym e))
submitted_token (some s) t e n = ap some e

digests :
    (x y : String)
    → (if x == "" || y == "" then some false else compare_digest x y) ≡ some true
    → (x ≢ "") × (x ≡ y)
digests x y h = go (x == "") (y == "") refl h
  where
    go :
        (b c : Bool)
        → (x == "") ≡ b
        → (if b || c then some false else compare_digest x y) ≡ some true
        → (x ≢ "") × (x ≡ y)
    go true c e h = cc
    go false true e h = cc
    go false false e h = (λ q. ground (arith, eq_iff x ""), compare_digest-eq x y h)

verify_csrf-token :
    (q : Request)
    → verify_csrf q.session (get_or q.form "csrf_token" "") ≡ some true
    → (token : String) × (token ≢ "")
      × (q.session.csrf_token ≡ some token)
      × (q.form.get "csrf_token" ≡ some token)
unfolding verify_csrf
verify_csrf-token q h =
    let (n, same) = digests (text_or q.session.csrf_token "") (get_or q.form "csrf_token" "") h in
    (
      text_or q.session.csrf_token "",
      n,
      expected_token _ _ refl n,
      submitted_token _ _ (sym same) n,
    )

after_csrf-passed :
    (o : Option Bool) (body : Admin Page) (s : Panel)
    → ((after_csrf o body s).1 ≡ s) ⊎ (o ≡ some true)
unfolding pure raise
after_csrf-passed none body s = inl refl
after_csrf-passed (some false) body s = inl refl
after_csrf-passed (some true) body s = inr refl

logged_in :
    (b : Bool) (m : Admin Page) (page : Page) (s : Panel)
    → (((if b then m else pure page) s).1 ≡ s) ⊎ (b ≡ true)
unfolding pure
logged_in true m page s = inr refl
logged_in false m page s = inl refl

past_login :
    (b : Bool) (m n : Admin Page) (s : Panel)
    → b ≡ true
    → (m s).1 ≡ s
    → ((if b then m else n) s).1 ≡ s
past_login true m n s e h = h
past_login false m n s e h = cc

guarded-IsAuthorised :
    (q : Request) (body : Admin Page) (s : Panel) → ((guarded q body s).1 ≡ s) ⊎ IsAuthorised q
unfolding guarded
guarded-IsAuthorised q body s =
    elim (logged_in q.session.authenticated
      (after_csrf (verify_csrf q.session (get_or q.form "csrf_token" "")) body) _ s) [
        | inl out ↦ inl out
        | inr e ↦
            elim (after_csrf-passed (verify_csrf q.session (get_or q.form "csrf_token" "")) body
              s) [
                | inl out ↦ inl (past_login q.session.authenticated _ _ s e out)
                | inr passed ↦ inr (e, verify_csrf-token q passed)
              ]
      ]

-- A form of the panel that edits scanners, profiles, the policies for encrypted files, API clients or settings, or that asks for a re-scan, changes the tables or the session's one-time key only if the session is logged in and the form has the session's token, which is not empty; every other request leaves all of it as it was.
pub handle-IsAuthorised :
    (host : Host) (a : Action) (q : Request) (s : Panel)
    → ((handle host a q s).1 ≡ s) ⊎ IsAuthorised q
unfolding handle scanner_new_submit scanner_edit_submit scanner_delete profile_new_submit
    profile_edit_submit profile_delete encrypted_files_submit api_client_create api_client_revoke
    api_client_rotate security_submit rescan
handle-IsAuthorised host Action.scanner_create q s = guarded-IsAuthorised q _ s
handle-IsAuthorised host Action.profile_create q s = guarded-IsAuthorised q _ s
handle-IsAuthorised host Action.client_create q s = guarded-IsAuthorised q _ s
handle-IsAuthorised host Action.policies_save q s = guarded-IsAuthorised q _ s
handle-IsAuthorised host Action.settings_save q s = guarded-IsAuthorised q _ s
handle-IsAuthorised host (Action.scanner_edit id) q s = guarded-IsAuthorised q _ s
handle-IsAuthorised host (Action.scanner_remove id) q s = guarded-IsAuthorised q _ s
handle-IsAuthorised host (Action.profile_edit id) q s = guarded-IsAuthorised q _ s
handle-IsAuthorised host (Action.profile_remove id) q s = guarded-IsAuthorised q _ s
handle-IsAuthorised host (Action.client_revoke id) q s = guarded-IsAuthorised q _ s
handle-IsAuthorised host (Action.client_rotate id) q s = guarded-IsAuthorised q _ s
handle-IsAuthorised host (Action.scan_again id) q s = guarded-IsAuthorised q _ s
