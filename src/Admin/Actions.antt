-- ===== src/Admin/Actions.antt =====
-- The panel's forms that edit the configuration or ask for a re-scan. Those of the login and the
-- logout (api/panel/auth.py), which ask for no token and write to the audit log, are in Panel, and the
-- upload form is not among them.
use safe_cloud.Prelude.{String}
use safe_cloud.Admin.Tables.{Admin}
use safe_cloud.Admin.Requests.{Request, Host, Page}
use safe_cloud.Admin.Scanners.{scanner_new_submit, scanner_edit_submit, scanner_delete}
use safe_cloud.Admin.Profiles.{profile_new_submit, profile_edit_submit, profile_delete}
use safe_cloud.Admin.Settings.{
  encrypted_files_submit, api_client_create, api_client_revoke, api_client_rotate, security_submit,
  rescan,
}

pub data Action : Type 0 where
  scanner_create profile_create client_create policies_save settings_save : Action
  scanner_edit scanner_remove profile_edit profile_remove client_revoke client_rotate scan_again :
      String → Action

unfoldable pub handle : Host → Action → Request → Admin Page
handle host scanner_create q = scanner_new_submit host q
handle host profile_create q = profile_new_submit host q
handle host client_create q = api_client_create host q
handle host policies_save q = encrypted_files_submit q
handle host settings_save q = security_submit host q
handle host (scanner_edit id) q = scanner_edit_submit host q id
handle host (scanner_remove id) q = scanner_delete q id
handle host (profile_edit id) q = profile_edit_submit host q id
handle host (profile_remove id) q = profile_delete q id
handle host (client_revoke id) q = api_client_revoke q id
handle host (client_rotate id) q = api_client_rotate host q id
handle host (scan_again id) q = rescan q id
