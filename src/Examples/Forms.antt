-- ===== src/Examples/Forms.antt =====
-- Concrete inputs of the panel's forms and of the checks of a scanner's configuration.
use safe_cloud.Prelude.{
  List, [], ◌∷◌, none, some, true, ◌==◌, ◌≡◌, ◌⊎◌, ◌↔◌, refl, arith, lookup, if◌then◌else◌, chomp,
  strip, lstrip, rstrip, lower_text, has_prefix,
}
use safe_cloud.Exec.{ok, raised, db_error, ◌>>=◌}
use safe_cloud.Db.{ScannerConfig, Profile, World, get_profile_scanners}
use safe_cloud.Validation.{
  valid, Atom, Json, and_then, is_safe_char, strip_placeholders, is_safe_arg, texts_of, check_args,
  validate_scan_command, validate_result_parser, is_image_char, is_image, validate_docker_image,
  is_env_key, env_items, validate_env_vars, is_slug, ScannerForm, validate_scanner_config,
}
use safe_cloud.Validation.Safety.{IsSafeConfig, validate_scanner_config-IsSafeConfig}
use safe_cloud.Admin.{
  ApiClient, ℤ, Value, Panel, Form, Request, Host, Action, handle, set_profile_scanners, may_set,
  put_members, rescan, add_client, key_taken, revoke_key, client_by_hash,
}
use safe_cloud.Admin.Guard.{IsAuthorised, handle-IsAuthorised}
use safe_cloud.Admin.Invariant.Calls.{Inv}
use safe_cloud.Admin.Invariant.Forms.{handle-IsWell}
use safe_cloud.Admin.Members.{enabled_in_order, set_profile_scanners-get_profile_scanners}
use safe_cloud.Admin.KeyStore.Accounts.{KeyCall, apply, active}
use safe_cloud.Admin.KeyStore.History.{Leads, history, client_by_hash-history}
use safe_cloud.Admin.Rescan.{Rescanned, rescan-Rescanned}

abbrev scanner_form : ScannerForm
scanner_form = record {
  name = " ClamAV ";
  slug = "ClamAV-1";
  enabled = true;
  docker_image = "nextcloud-scanner-clamav:latest";
  scan_command = Json.array (Atom.text "/bin/scan" ∷ Atom.text "--in={{FILE}}" ∷ []);
  env_vars = Json.object (("LANG", Atom.text "C") ∷ []);
  result_parser = "generic_exit_code";
  timeout_seconds = some 120;
  cpu_limit = some (record { at_least_0_1 = true; at_most_8 = true; hundredths = 100 });
  memory_limit_mb = some 2048;
}

abbrev clam : ScannerConfig
clam = record {
  id = "s1";
  name = "ClamAV";
  slug = "clamav-1";
  enabled = true;
  docker_image = "nextcloud-scanner-clamav:latest";
  scan_command = "/bin/scan" ∷ "--in={{FILE}}" ∷ [];
  env_vars = ("LANG", "C") ∷ [];
  result_parser = "generic_exit_code";
  timeout_seconds = 120;
  cpu_limit = 100;
  memory_limit_mb = 2048;
}

clam_valid : validate_scanner_config "s1" scanner_form ≡ valid clam
unfolding validate_scanner_config and_then is_safe_char strip_placeholders is_safe_arg texts_of
    check_args validate_scan_command validate_result_parser is_image_char is_image
    validate_docker_image is_env_key env_items validate_env_vars is_slug chomp strip lstrip rstrip
    lower_text has_prefix
clam_valid = refl

validate_scanner_config-IsSafeConfig_example : IsSafeConfig clam × (clam.id ≡ "s1")
validate_scanner_config-IsSafeConfig_example =
    validate_scanner_config-IsSafeConfig "s1" scanner_form clam clam_valid

abbrev standard : Profile
standard = record {
  id = "p1";
  name = "Standard";
  slug = "standard";
  enabled = true;
  aggregation_policy = "ALL_MUST_PASS";
  is_default = true;
}

abbrev tables : World
tables = record {
  scans = [];
  results = [];
  profiles = standard ∷ [];
  memberships = [];
  scanners = clam ∷ [];
  encrypted_policies = ("default", "DENY") ∷ [];
  paths = [];
  runs = [];
  faults = [];
  clock = 50;
}

abbrev client_row : ApiClient
client_row = record {
  id = "c1";
  name = "nightly";
  enabled = true;
  key_prefix = "sk_live_ab";
  key_hash = "h1";
  scanner_profile_id = none;
  permissions = "scan.upload" ∷ [];
  created_at = 3;
  last_used_at = none;
  revoked_at = none;
}

abbrev panel_state : Panel
panel_state = record {
  world = tables;
  clients = client_row ∷ [];
  settings = ("docs_enabled", Value.flag true) ∷ [];
  audit = [];
  new_api_key = none;
}

abbrev panel_host : Host
panel_host = record {
  loads = λ t. none;
  int_of = λ t. if t == "60" then some (ℤ.pos 60) else none;
  float_of = λ t. none;
  sha256_hex = λ t. t;
}

abbrev sent_form : Form
sent_form = record {
  get = λ k. lookup k (("csrf_token", "tok") ∷ ("name", "Strict") ∷ ("slug", "strict") ∷ []);
  getlist = λ k. if k == "scanner_ids" then "s1" ∷ [] else [];
}

abbrev request : Request
request = record {
  session = record { authenticated = true; username = some "root"; csrf_token = some "tok" };
  ip = none;
  form = sent_form;
  row_id = "n1";
  secret = "x";
}

handle-IsAuthorised_example :
    ((handle panel_host Action.settings_save request panel_state).1 ≡ panel_state)
    ⊎ IsAuthorised request
handle-IsAuthorised_example =
    handle-IsAuthorised panel_host Action.settings_save request panel_state

panel_state-Inv : Inv panel_state
panel_state-Inv = record {
  scanners_safe = ((validate_scanner_config-IsSafeConfig "s1" scanner_form clam clam_valid).0, tt);
  profiles_apart = (tt, tt);
  one_default = ground arith;
  clients_apart = (tt, tt);
}

handle-IsWell_example : Inv (handle panel_host Action.profile_create request panel_state).1
handle-IsWell_example =
    handle-IsWell panel_host Action.profile_create request panel_state panel_state-Inv

set_profile_scanners-get_profile_scanners_example :
    (set_profile_scanners "p1" ("s1" ∷ []) >>= λ _. get_profile_scanners "p1") tables ≡ (
      if may_set "p1" ("s1" ∷ []) tables
      then (ok (enabled_in_order ("s1" ∷ []) (clam ∷ [])), put_members "p1" ("s1" ∷ []) tables)
      else (raised db_error, tables))
set_profile_scanners-get_profile_scanners_example =
    set_profile_scanners-get_profile_scanners "p1" ("s1" ∷ []) tables refl

abbrev key_calls : List KeyCall
key_calls = KeyCall.touch "c1" 9 ∷ KeyCall.create client_row ∷ []

created : Leads (KeyCall.create client_row ∷ []) (client_row ∷ [])
unfolding apply add_client key_taken
created = Leads.step (KeyCall.create client_row) Leads.start refl

revoked :
    Leads (KeyCall.revoke "c1" 9 ∷ KeyCall.create client_row ∷ []) (revoke_key 9 client_row ∷ [])
unfolding apply
revoked = Leads.step (KeyCall.revoke "c1" 9) created refl

client_by_hash-history_example :
    ((c : ApiClient) × (client_by_hash "h1" (revoke_key 9 client_row ∷ []) ≡ some c)
      × (c.id ≡ "c1"))
    ↔ (history (KeyCall.revoke "c1" 9 ∷ KeyCall.create client_row ∷ []) "c1" ≡ active "h1")
client_by_hash-history_example =
    client_by_hash-history (KeyCall.revoke "c1" 9 ∷ KeyCall.create client_row ∷ [])
      (revoke_key 9 client_row ∷ []) "h1" "c1" revoked

rescan-Rescanned_example : Rescanned request "x" [] (rescan request "x" panel_state).1.world.scans
rescan-Rescanned_example = rescan-Rescanned request "x" panel_state
