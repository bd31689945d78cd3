-- ===== src/Admin/Scanners.antt =====
-- api/panel/admin_scanners.py: the forms for scanners.
use safe_cloud.Prelude.{ℕ, String, [], Option, none, some, Bool, true, if◌then◌else◌, text_or}
use safe_cloud.Exec.{value_error, pure, raise, when, ◌>>=◌, ◌>>◌}
use safe_cloud.Db.{ScannerConfig}
use safe_cloud.Validation.{
  Validated, valid, invalid, crashed, Json, scalar, object, Float, ScannerForm,
  validate_scanner_config,
}
use safe_cloud.Admin.Tables.{ℤ, pos, negsuc, Admin, within}
use safe_cloud.Admin.Config.{get_scanner, create_scanner, update_scanner, delete_scanner}
use safe_cloud.Admin.Requests.{
  Form, Request, Host, Page, redirected, config_error, get_or, is_on, audit, guarded, differ,
}

-- What `int` makes of a field, as far as the ranges tell: a negative number is in none of them.
abbrev nat_of : Option ℤ → Option ℕ
nat_of none = none
nat_of (some (pos n)) = some n
nat_of (some (negsuc n)) = some 0

abbrev number_field : (String → Option ℤ) → Option String → ℕ → Option ℕ
number_field int_of none d = some d
number_field int_of (some v) d = nat_of (int_of v)

abbrev float_field : (String → Option Float) → Option String → Option Float
float_field float_of none =
    some (record { at_least_0_1 = true; at_most_8 = true; hundredths = 100 })
float_field float_of (some v) = float_of v

abbrev json_or : Option Json → Json → Json
json_or none d = d
json_or (some j) d = j

-- Where the command's text is no JSON it is kept, and is no array.
unfoldable pub parse_scanner_form : Host → Form → ScannerForm
parse_scanner_form host form = record {
  name = get_or form "name" "";
  slug = get_or form "slug" "";
  enabled = is_on form "enabled";
  docker_image = get_or form "docker_image" "";
  scan_command = json_or (host.loads (text_or (form.get "scan_command_json") "[]")) scalar;
  env_vars = json_or (host.loads (text_or (form.get "env_vars_json") "{}")) (object []);
  result_parser = get_or form "result_parser" "clamav_wrapper_json";
  timeout_seconds = number_field host.int_of (form.get "timeout_seconds") 120;
  cpu_limit = float_field host.float_of (form.get "cpu_limit");
  memory_limit_mb = number_field host.int_of (form.get "memory_limit_mb") 512;
}

unfoldable pub save_new_scanner : Request → Validated ScannerConfig → Admin Page
save_new_scanner q (invalid e) = pure (config_error e)
save_new_scanner q crashed = raise value_error
save_new_scanner q (valid row) = do
  within (create_scanner row)
  audit q "scanner_created" "scanner" (some row.id)
  pure (redirected "/scanners")

unfoldable pub scanner_new_submit : Host → Request → Admin Page
scanner_new_submit host q =
    guarded q
      (save_new_scanner q (validate_scanner_config q.row_id (parse_scanner_form host q.form)))

abbrev enabled_action : Bool → String
enabled_action b = if b then "scanner_enabled" else "scanner_disabled"

unfoldable pub save_scanner : Request → ScannerConfig → Validated ScannerConfig → Admin Page
save_scanner q existing (invalid e) = pure (config_error e)
save_scanner q existing crashed = raise value_error
save_scanner q existing (valid row) = do
  within (update_scanner row)
  audit q "scanner_modified" "scanner" (some row.id)
  when (differ existing.enabled row.enabled)
      (audit q (enabled_action row.enabled) "scanner" (some row.id))
  pure (redirected "/scanners")

unfoldable pub edit_scanner : Host → Request → String → Option ScannerConfig → Admin Page
edit_scanner host q scanner_id none = pure (redirected "/scanners")
edit_scanner host q scanner_id (some existing) =
    save_scanner q existing (validate_scanner_config scanner_id (parse_scanner_form host q.form))

unfoldable pub scanner_edit_submit : Host → Request → String → Admin Page
scanner_edit_submit host q scanner_id =
    guarded q (within (get_scanner scanner_id) >>= edit_scanner host q scanner_id)

unfoldable pub scanner_delete : Request → String → Admin Page
scanner_delete q scanner_id = guarded q (
    within (delete_scanner scanner_id)
    >> audit q "scanner_deleted" "scanner" (some scanner_id)
    >> pure (redirected "/scanners"))
