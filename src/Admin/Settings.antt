-- ===== src/Admin/Settings.antt =====
-- api/panel/admin_settings.py: the policies for encrypted files, API clients and the system settings;
-- and `rescan` of api/panel/routes.py.
use safe_cloud.Prelude.{
  ℕ, String, List, [], ◌∷◌, Option, none, some, true, ◌==◌, if◌then◌else◌, ◌+++◌, contains,
  is_empty, strip, lower_text, split_text,
}
use safe_cloud.Policy.{encrypted_policies}
use safe_cloud.Exec.{pure, gets, modify, when, ◌>>=◌, ◌>>◌}
use safe_cloud.Db.{ScanInfo, Scan, connect, get_encrypted_policies, get_scan, create_scan}
use safe_cloud.Panel.{Session}
use safe_cloud.Admin.Tables.{
  ApiClient, pos, Value, number, flag, texts, Admin, within, read, set_encrypted_policy,
  get_system_settings, update_system_settings,
}
use safe_cloud.Admin.Keys.{
  create_api_client, revoke_api_client, rotate_api_client_key, full_key, display_prefix,
}
use safe_cloud.Admin.Requests.{
  Form, Request, Host, Page, redirected, saved, client_list, get_or, is_on, audit, guarded,
}

-- The categories of `_ENCRYPTED_CATEGORIES`.
abbrev pub encrypted_categories : List String
encrypted_categories =
    "archive_password_protected" ∷ "pdf_encrypted" ∷ "office_encrypted" ∷ "unknown_encryption"
    ∷ "default" ∷ []

unfoldable pub set_policies : Form → List String → Admin (Unit {0})
set_policies form [] = pure tt
set_policies form (category ∷ categories) =
    when (contains (get_or form ("policy_" +++ category) "") encrypted_policies)
      (set_encrypted_policy category (get_or form ("policy_" +++ category) ""))
    >> set_policies form categories

unfoldable pub encrypted_files_submit : Request → Admin Page
encrypted_files_submit q = guarded q (
    set_policies q.form encrypted_categories
    >> audit q "encrypted_policy_changed" "encrypted_file_policies" none
    >> (within get_encrypted_policies >>= λ _. pure saved))

-- The session is written with the answer, so not where a handler raises.
unfoldable pub keep_key : Option String → Admin (Unit {0})
keep_key key = modify (λ s. record s { new_api_key = key })

-- The list shows the new key of the request before it, and then forgets it.
unfoldable pub api_clients_list : Session → Admin Page
api_clients_list session =
    if session.authenticated
    then (do
      new_key ← gets (λ s. s.new_api_key)
      clients ← read (λ s. s.clients)
      within connect
      keep_key none
      pure (client_list new_key clients))
    else pure (redirected "/login")

abbrev permissions_of : List String → List String
permissions_of ps = if is_empty ps then "scan.upload" ∷ "scan.read" ∷ [] else ps

abbrev pin_of : Option String → Option String
pin_of none = none
pin_of (some id) = if id == "" then none else some id

unfoldable pub new_client : Host → Request → String → ℕ → ApiClient
new_client host q name created_at = record {
  id = q.row_id;
  name = name;
  enabled = true;
  key_prefix = display_prefix q.secret;
  key_hash = host.sha256_hex (full_key q.secret);
  scanner_profile_id = pin_of (q.form.get "scanner_profile_id");
  permissions = permissions_of (q.form.getlist "permissions");
  created_at = created_at;
  last_used_at = none;
  revoked_at = none;
}

unfoldable pub save_client : Host → Request → String → Admin Page
save_client host q name = do
  now ← gets (λ s. s.world.clock)
  create_api_client (new_client host q name now)
  audit q "api_key_created" "api_client" (some q.row_id)
  keep_key (some (full_key q.secret))
  pure (redirected "/settings/api-clients")

unfoldable pub api_client_create : Host → Request → Admin Page
api_client_create host q = guarded q (
    if strip (get_or q.form "name" "") == ""
    then pure (redirected "/settings/api-clients")
    else save_client host q (strip (get_or q.form "name" "")))

unfoldable pub api_client_revoke : Request → String → Admin Page
api_client_revoke q client_id = guarded q (
    revoke_api_client client_id
    >> audit q "api_key_revoked" "api_client" (some client_id)
    >> pure (redirected "/settings/api-clients"))

unfoldable pub api_client_rotate : Host → Request → String → Admin Page
api_client_rotate host q client_id = guarded q (
    rotate_api_client_key client_id (display_prefix q.secret) (host.sha256_hex (full_key q.secret))
    >> audit q "api_key_rotated" "api_client" (some client_id)
    >> keep_key (some (full_key q.secret))
    >> pure (redirected "/settings/api-clients"))

csv_pieces : List String → List String
csv_pieces [] = []
csv_pieces (p ∷ ps) =
    let rest = csv_pieces ps in if strip p == "" then rest else lower_text (strip p) ∷ rest

-- `_csv`
unfoldable pub csv_field : Form → String → Value
unfolding csv_pieces
csv_field form name = texts (csv_pieces (split_text b',' (get_or form name "")))

-- `_int`
unfoldable pub int_field : Host → Form → String → ℕ → Value
int_field host form name d = number (elim (form.get name) [
  | none ↦ pos d
  | some v ↦ elim (host.int_of v) [ none ↦ pos d | some n ↦ n ]
])

unfoldable pub settings_of : Host → Form → List (String × Value)
settings_of host form =
    ("scan_history_retention_days", int_field host form "scan_history_retention_days" 365)
    ∷ ("staging_retention_hours", int_field host form "staging_retention_hours" 24)
    ∷ ("quarantine_retention_days", int_field host form "quarantine_retention_days" 30)
    ∷ ("audit_log_auto_prune", flag (is_on form "audit_log_auto_prune"))
    ∷ ("rate_limit_uploads_per_minute", int_field host form "rate_limit_uploads_per_minute" 30)
    ∷ ("rate_limit_requests_per_minute", int_field host form "rate_limit_requests_per_minute" 120)
    ∷ ("max_file_size_bytes", int_field host form "max_file_size_bytes" 5368709120)
    ∷ ("allowed_extensions", csv_field form "allowed_extensions")
    ∷ ("blocked_extensions", csv_field form "blocked_extensions")
    ∷ ("allowed_mime_types", csv_field form "allowed_mime_types")
    ∷ ("blocked_mime_types", csv_field form "blocked_mime_types")
    ∷ []

unfoldable pub security_submit : Host → Request → Admin Page
security_submit host q = guarded q (
    update_system_settings (settings_of host q.form)
    >> audit q "system_settings_changed" "system_settings" none
    >> (get_system_settings >>= λ _. pure saved))

-- The columns that a re-scan copies; the file's hash and type are the row's current ones.
unfoldable pub rescan_info : Request → String → Scan → ScanInfo
rescan_info q scan_id original = record original.info {
  request_id = q.secret;
  sha256 = original.sha256;
  mime_type = original.mime_type;
  md5 = original.md5;
  parent_scan_id = some scan_id;
}

unfoldable pub rescan_row : Request → String → Option Scan → Admin Page
rescan_row q scan_id none = pure (redirected "/scans")
rescan_row q scan_id (some original) = do
  new_row ← within (create_scan q.row_id (rescan_info q scan_id original))
  audit q "scan_manually_rerun" "scan" (some new_row.id)
  pure (redirected ("/scans/" +++ new_row.id))

-- The request's id of the new scan is drawn, as a secret is.
unfoldable pub rescan : Request → String → Admin Page
rescan q scan_id = guarded q (within (get_scan scan_id) >>= rescan_row q scan_id)
