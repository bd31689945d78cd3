-- ===== src/Admin/Requests.antt =====
-- What the panel's handlers share: requests, pages, the audit entries and the checks before a form.
use safe_cloud.Prelude.{
  String, List, Option, none, some, Bool, true, false, not, ◌==◌, if◌then◌else◌,
}
use safe_cloud.Exec.{other_error, pure, raise}
use safe_cloud.Panel.{Session, verify_csrf}
use safe_cloud.Validation.{ConfigError, Json, Float}
use safe_cloud.Admin.Tables.{ApiClient, ℤ, Admin, record_audit}

-- `form.get` and `form.getlist`; a missing field has no value.
pub record Form : Type 0 where
  pub get : String → Option String
  pub getlist : String → List String

-- A request, with what is drawn for it: the key of a new row, and the secret of a new API key.
pub record Request : Type 0 where
  pub session : Session
  pub ip : Option String
  pub form : Form
  pub row_id : String
  pub secret : String

-- Python's library: `json.loads`, `int`, `float` (`none` where they raise) and SHA-256.
pub record Host : Type 0 where
  pub loads : String → Option Json
  pub int_of : String → Option ℤ
  pub float_of : String → Option Float
  pub sha256_hex : String → String

pub data Page : Type 0 where
  redirected : String → Page
  config_error : ConfigError → Page
  form_error : String → Page
  forbidden saved : Page
  client_list : Option String → List ApiClient → Page

abbrev pub get_or : Form → String → String → String
get_or form k d = elim (form.get k) [ none ↦ d | some v ↦ v ]

abbrev pub is_on : Form → String → Bool
is_on form k = get_or form k "" == "on"

unfoldable pub audit : Request → (action object_type : String) → Option String → Admin (Unit {0})
audit q action object_type object_id = record_audit (record {
  actor = elim q.session.username [ none ↦ "admin" | some u ↦ u ];
  action = action;
  object_type = object_type;
  object_id = object_id;
  ip_address = q.ip;
})

abbrev pub after_csrf : Option Bool → Admin Page → Admin Page
after_csrf none body = raise other_error
after_csrf (some false) body = pure forbidden
after_csrf (some true) body = body

-- The first lines of every form's handler: the login, then the token.
unfoldable pub guarded : Request → Admin Page → Admin Page
guarded q body =
    if q.session.authenticated
    then after_csrf (verify_csrf q.session (get_or q.form "csrf_token" "")) body
    else pure (redirected "/login")

abbrev pub differ : Bool → Bool → Bool
differ true b = not b
differ false b = b
