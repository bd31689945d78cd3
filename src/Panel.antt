-- ===== src/Panel.antt =====
-- api/panel/auth.py and api/panel/csrf.py: the panel's login with its lockout, and the token of its
-- forms. A handler's state is the failed attempts by key, the session and the audit log.
use Prim.Native.Char.{Char, code}
use Prim.Native.String
pub mod Login
use safe_cloud.Prelude.{
  ℕ, zero, suc, String, List, [], ◌∷◌, ◌++◌, Option, none, some, Bool, true, false, not, ◌==◌, ◌&&◌,
  ◌||◌, ltb, leb, eqb, if◌then◌else◌, ◌+◌, ◌+++◌, length, select, text_or, codes,
}

pub record Session : Type 0 where
  pub authenticated : Bool
  pub username : Option String
  pub csrf_token : Option String

pub record PanelState : Type 0 where
  pub failed_attempts : String → List ℕ
  pub session : Session
  pub audit : List (String × String)

-- The settings, the lockout's length in ticks, and what is taken from Python's library: `int`, and
-- PBKDF2 of a password, a salt and a number of rounds; `none` is an exception.
pub record PanelEnv : Type 0 where
  pub admin_username : String
  pub admin_password_hash : String
  pub lockout : ℕ
  pub int_of : String → Option ℕ
  pub pbkdf2 : String → String → ℕ → Option String

abbrev pub live_attempts : (lockout now : ℕ) → List ℕ → List ℕ
live_attempts lockout now attempts = select (λ t. ltb now (t + lockout)) attempts

abbrev pub set_attempts : String → List ℕ → (String → List ℕ) → String → List ℕ
set_attempts key attempts all k = if k == key then attempts else all k

-- Whether the key is locked out, and its attempts that are not too old.
unfoldable pub is_locked_out : (lockout now : ℕ) → List ℕ → Bool × List ℕ
is_locked_out lockout now attempts =
    (leb 5 (length (live_attempts lockout now attempts)), live_attempts lockout now attempts)

all_ascii : List ℕ → Bool
all_ascii [] = true
all_ascii (c ∷ cs) = ltb c 128 && all_ascii cs

-- `hmac.compare_digest` of two texts; `none` is the `TypeError` for a text that is not ASCII.
unfoldable pub compare_digest : String → String → Option Bool
unfolding all_ascii
compare_digest a b = if all_ascii (codes a) && all_ascii (codes b) then some (a == b) else none

push_char : Char → List String → List String
push_char c [] = String.◌∷◌ c "" ∷ []
push_char c (p ∷ ps) = String.◌∷◌ c p ∷ ps

-- `text.split("$", n)`
split_dollar : ℕ → String → List String
unfolding push_char
split_dollar n String.[] = "" ∷ []
split_dollar zero (String.◌∷◌ c s) = String.◌∷◌ c s ∷ []
split_dollar (suc n) (String.◌∷◌ c s) =
    let rest = split_dollar n s in
    let same = split_dollar (suc n) s in if eqb (code c) b'$' then "" ∷ rest else push_char c same

unfoldable pub matches_digest : Option String → String → Option Bool
matches_digest none hash_hex = none
matches_digest (some candidate) hash_hex = compare_digest candidate hash_hex

unfoldable pub check_rounds : PanelEnv → String → Option ℕ → String → String → Option Bool
check_rounds env password none salt hash_hex = some false
check_rounds env password (some rounds) salt hash_hex =
    matches_digest (env.pbkdf2 password salt rounds) hash_hex

unfoldable pub verify_parts : PanelEnv → String → List String → Option Bool
verify_parts env password (algo ∷ iterations ∷ salt ∷ hash_hex ∷ []) =
    if algo == "pbkdf2_sha256"
    then check_rounds env password (env.int_of iterations) salt hash_hex
    else some false
verify_parts env password _ = some false

-- `none` is an exception that is not caught.
unfoldable pub verify_password : PanelEnv → (password encoded : String) → Option Bool
unfolding split_dollar
verify_password env password encoded = verify_parts env password (split_dollar 3 encoded)

pub data LoginAnswer : Type 0 where
  too_many_attempts invalid redirected server_error : LoginAnswer

unfoldable pub log_in : (key username : String) → PanelState → PanelState
log_in key username s = record {
  failed_attempts = set_attempts key [] s.failed_attempts;
  session = record { authenticated = true; username = some username; csrf_token = none };
  audit = s.audit ++ (username, "login") ∷ [];
}

unfoldable pub refuse_login : (now : ℕ) → (key username : String) → PanelState → PanelState
refuse_login now key username s = record s {
  failed_attempts = set_attempts key (s.failed_attempts key ++ now ∷ []) s.failed_attempts;
  audit = s.audit ++ (text_or (some username) "unknown", "login_failed") ∷ [];
}

unfoldable pub decide_login :
    (now : ℕ)
    → (key username : String) → Option Bool
    → Option Bool
    → PanelState
    → LoginAnswer × PanelState
decide_login now key username none password_ok s = (server_error, s)
decide_login now key username (some user_ok) none s = (server_error, s)
decide_login now key username (some user_ok) (some password_ok) s =
    if user_ok && password_ok
    then (redirected, log_in key username s)
    else (invalid, refuse_login now key username s)

-- `recorded_at` is the clock when a failed attempt is recorded.
unfoldable pub login_submit :
    PanelEnv
    → (now recorded_at : ℕ) → (client_ip username password : String) → PanelState
    → LoginAnswer × PanelState
login_submit env now recorded_at client_ip username password s =
    let key = username +++ ":" +++ client_ip in
    let (locked, live) = is_locked_out env.lockout now (s.failed_attempts key) in
    let t = record s { failed_attempts = set_attempts key live s.failed_attempts } in
    if locked
    then (
      too_many_attempts,
      record t { audit = s.audit ++ (text_or (some username) "unknown", "login_locked_out") ∷ [] },
    )
    else decide_login recorded_at key username (compare_digest username env.admin_username)
        (verify_password env password env.admin_password_hash) t

unfoldable pub logout : PanelState → PanelState
logout s = record s {
  session = record { authenticated = false; username = none; csrf_token = none };
  audit = s.audit ++ (elim s.session.username [ none ↦ "unknown" | some u ↦ u ], "logout") ∷ [];
}

-- `verify_csrf` returns: `none` is an exception other than the refusal.
unfoldable pub verify_csrf : Session → (submitted : String) → Option Bool
verify_csrf session submitted =
    let expected = text_or session.csrf_token "" in
    if expected == "" || submitted == "" then some false else compare_digest expected submitted
