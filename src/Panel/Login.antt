-- ===== src/Panel/Login.antt =====
-- Who is logged in to the panel.
use safe_cloud.Prelude.{
  ℕ, String, [], ◌∷◌, Option, none, some, Bool, Bool-cases, true, false, inl, inr, ◌≡◌, ◌⊎◌, ◌<◌,
  ◌+++◌, refl, arith, eq_iff, leb, text_or, ◌++◌, length, if◌then◌else◌,
}
use safe_cloud.Panel.{
  set_attempts, too_many_attempts, PanelEnv, PanelState, live_attempts, is_locked_out,
  compare_digest, verify_password, decide_login, refuse_login, login_submit,
}

pub compare_digest-eq : (a b : String) → compare_digest a b ≡ some true → a ≡ b
unfolding compare_digest
compare_digest-eq a b h = ground (arith, eq_iff a b)

decide_login-authenticated :
    (now : ℕ) (key username : String) (user_ok password_ok : Option Bool) (s : PanelState)
    → (decide_login now key username user_ok password_ok s).1.session.authenticated ≡ true
    → (s.session.authenticated ≡ true) ⊎ ((user_ok ≡ some true) × (password_ok ≡ some true))
unfolding decide_login refuse_login
decide_login-authenticated now key username none p s h = inl h
decide_login-authenticated now key username (some u) none s h = inl h
decide_login-authenticated now key username (some true) (some true) s h = inr (refl, refl)
decide_login-authenticated now key username (some true) (some false) s h = inl h
decide_login-authenticated now key username (some false) (some p) s h = inl h

-- After a login is submitted the session is authenticated only if it was so before, or fewer than five attempts of the user's name and address that failed within the lockout's time are recorded, the name is the administrator's and the password verifies against the configured hash.
pub login_submit-authenticated :
    (env : PanelEnv) (now recorded_at : ℕ) (client_ip username password : String) (s : PanelState)
    → (login_submit env now recorded_at client_ip username password s).1.session.authenticated
      ≡ true
    → (s.session.authenticated ≡ true)
      ⊎ ((length
              (live_attempts env.lockout now (s.failed_attempts (username +++ ":" +++ client_ip)))
            < 5)
          × (username ≡ env.admin_username)
          × (verify_password env password env.admin_password_hash ≡ some true))
unfolding login_submit is_locked_out
login_submit-authenticated env now recorded_at client_ip username password s h =
    let key = username +++ ":" +++ client_ip in
    let live = live_attempts env.lockout now (s.failed_attempts key) in
    let t = record s { failed_attempts = set_attempts key live s.failed_attempts } in
    elim (Bool-cases (leb 5 (length live))) [
      | inl e ↦ inl (ground arith)
      | inr e ↦
          elim (decide_login-authenticated recorded_at key username
            (compare_digest username env.admin_username)
            (verify_password env password env.admin_password_hash) t
            (unlocked t (leb 5 (length live)) e h)) [
              | inl before ↦ inl before
              | inr (u, p) ↦ inr (ground arith, compare_digest-eq _ _ u, p)
            ]
    ]
  where
    unlocked :
        (t : PanelState) (locked : Bool)
        → locked ≡ false
        → (if locked
            then (
              too_many_attempts,
              record t {
                audit = s.audit ++ (text_or (some username) "unknown", "login_locked_out") ∷ [];
              },
            )
            else decide_login recorded_at
                (username +++ ":" +++ client_ip)
                username
                (compare_digest username env.admin_username)
                (verify_password env password env.admin_password_hash)
                t).1.session.authenticated
          ≡ true
        → (decide_login recorded_at
            (username +++ ":" +++ client_ip)
            username
            (compare_digest username env.admin_username)
            (verify_password env password env.admin_password_hash)
            t).1.session.authenticated
          ≡ true
    unlocked t true e h = cc
    unlocked t false e h = h
