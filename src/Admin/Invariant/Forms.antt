-- ===== src/Admin/Invariant/Forms.antt =====
-- Every form of the panel that edits these tables keeps the invariant.
use safe_cloud.Prelude.{String, List, [], ◌∷◌, Option, none, some, Bool, true, false, ◌≡◌, refl}
use safe_cloud.Exec.Triple.{Keeps, Keeps-pure, Keeps-raise, Keeps-modify, Keeps-if, keeps_rules}
use safe_cloud.Db.{Scan, ScannerConfig, Profile}
use safe_cloud.Validation.{Validated, valid, invalid, crashed}
use safe_cloud.Validation.Safety.{IsSafeConfig, validate_scanner_config-IsSafeConfig}
use safe_cloud.Admin.Tables.{Panel, Admin}
use safe_cloud.Admin.Requests.{Form, Request, Host, Page, audit, after_csrf, guarded}
use safe_cloud.Admin.Scanners.{
  parse_scanner_form, save_new_scanner, scanner_new_submit, save_scanner, edit_scanner,
  scanner_edit_submit, scanner_delete,
}
use safe_cloud.Admin.Profiles.{
  refuse_form, save_new_profile, profile_new_submit, save_profile, edit_profile,
  profile_edit_submit, profile_delete,
}
use safe_cloud.Admin.Settings.{
  set_policies, encrypted_files_submit, keep_key, save_client, api_client_create, api_client_revoke,
  api_client_rotate, security_submit, rescan_row, rescan,
}
use safe_cloud.Admin.Actions.{Action, handle}
use safe_cloud.Admin.Invariant.Calls.{
  Inv, calls, create_scanner-Keeps, update_scanner-Keeps, record_audit-Keeps,
}

audit-Keeps :
    (q : Request) (action object_type : String) (id : Option String)
    → Keeps Inv (audit q action object_type id)
unfolding audit
audit-Keeps q action object_type id = record_audit-Keeps _

keep_key-Keeps : (key : Option String) → Keeps Inv (keep_key key)
unfolding keep_key
keep_key-Keeps key = Keeps-modify _ (λ s h. h)

after_csrf-Keeps :
    (o : Option Bool) (body : Admin Page) → Keeps Inv body → Keeps Inv (after_csrf o body)
after_csrf-Keeps none body k = Keeps-raise _
after_csrf-Keeps (some false) body k = Keeps-pure _
after_csrf-Keeps (some true) body k = k

guarded-Keeps : (q : Request) (body : Admin Page) → Keeps Inv body → Keeps Inv (guarded q body)
unfolding guarded
guarded-Keeps q body k = Keeps-if _ _ _ (after_csrf-Keeps _ body k) (Keeps-pure _)

save_new_scanner-Keeps :
    (q : Request) (v : Validated ScannerConfig)
    → ((row : ScannerConfig) → v ≡ valid row → IsSafeConfig row)
    → Keeps Inv (save_new_scanner q v)
unfolding save_new_scanner
save_new_scanner-Keeps q (invalid e) f = Keeps-pure _
save_new_scanner-Keeps q crashed f = Keeps-raise _
save_new_scanner-Keeps q (valid row) f =
    let stored = create_scanner-Keeps row (f row refl) in search (keeps_rules, audit-Keeps)

save_scanner-Keeps :
    (q : Request) (existing : ScannerConfig) (v : Validated ScannerConfig)
    → ((row : ScannerConfig) → v ≡ valid row → IsSafeConfig row)
    → Keeps Inv (save_scanner q existing v)
unfolding save_scanner
save_scanner-Keeps q existing (invalid e) f = Keeps-pure _
save_scanner-Keeps q existing crashed f = Keeps-raise _
save_scanner-Keeps q existing (valid row) f =
    let stored = update_scanner-Keeps row (f row refl) in search (keeps_rules, audit-Keeps)

edit_scanner-Keeps :
    (host : Host) (q : Request) (id : String) (found : Option ScannerConfig)
    → Keeps Inv (edit_scanner host q id found)
unfolding edit_scanner
edit_scanner-Keeps host q id none = Keeps-pure _
edit_scanner-Keeps host q id (some existing) =
    save_scanner-Keeps q existing _
      (λ row e. (validate_scanner_config-IsSafeConfig id (parse_scanner_form host q.form) row e).0)

refuse_form-Keeps : (message : String) → Keeps Inv (refuse_form message)
unfolding refuse_form
refuse_form-Keeps message = search (keeps_rules, calls)

save_new_profile-Keeps :
    (host : Host) (q : Request) (o : Option String) → Keeps Inv (save_new_profile host q o)
unfolding save_new_profile
save_new_profile-Keeps host q (some message) = refuse_form-Keeps message
save_new_profile-Keeps host q none = search (keeps_rules, calls, audit-Keeps)

save_profile-Keeps :
    (host : Host) (q : Request) (existing : Profile) (o : Option String)
    → Keeps Inv (save_profile host q existing o)
unfolding save_profile
save_profile-Keeps host q existing (some message) = refuse_form-Keeps message
save_profile-Keeps host q existing none = search (keeps_rules, calls, audit-Keeps) depth 8

edit_profile-Keeps :
    (host : Host) (q : Request) (found : Option Profile) → Keeps Inv (edit_profile host q found)
unfolding edit_profile
edit_profile-Keeps host q none = Keeps-pure _
edit_profile-Keeps host q (some existing) = save_profile-Keeps host q existing _

set_policies-Keeps : (form : Form) (cs : List String) → Keeps Inv (set_policies form cs)
unfolding set_policies
set_policies-Keeps form [] = Keeps-pure _
set_policies-Keeps form (c ∷ cs) =
    let rest = set_policies-Keeps form cs in search (keeps_rules, calls)

save_client-Keeps :
    (host : Host) (q : Request) (name : String) → Keeps Inv (save_client host q name)
unfolding save_client
save_client-Keeps host q name = search (keeps_rules, calls, audit-Keeps, keep_key-Keeps)

rescan_row-Keeps :
    (q : Request) (id : String) (found : Option Scan) → Keeps Inv (rescan_row q id found)
unfolding rescan_row
rescan_row-Keeps q id none = Keeps-pure _
rescan_row-Keeps q id (some original) = search (keeps_rules, calls, audit-Keeps)

ruleset forms = (
  guarded-Keeps, edit_scanner-Keeps, save_new_profile-Keeps, edit_profile-Keeps, set_policies-Keeps,
  save_client-Keeps, rescan_row-Keeps, audit-Keeps, keep_key-Keeps,
)

handle-Keeps : (host : Host) (a : Action) (q : Request) → Keeps Inv (handle host a q)
unfolding handle scanner_new_submit scanner_edit_submit scanner_delete profile_new_submit
    profile_edit_submit profile_delete encrypted_files_submit api_client_create api_client_revoke
    api_client_rotate security_submit rescan
handle-Keeps host Action.scanner_create q = guarded-Keeps q _ (
    save_new_scanner-Keeps q _ (λ row e. (validate_scanner_config-IsSafeConfig q.row_id _ row e).0))
handle-Keeps host Action.profile_create q = search (keeps_rules, calls, forms)
handle-Keeps host Action.client_create q = search (keeps_rules, calls, forms)
handle-Keeps host Action.policies_save q = search (keeps_rules, calls, forms)
handle-Keeps host Action.settings_save q = search (keeps_rules, calls, forms)
handle-Keeps host (Action.scanner_edit id) q = search (keeps_rules, calls, forms)
handle-Keeps host (Action.scanner_remove id) q = search (keeps_rules, calls, forms)
handle-Keeps host (Action.profile_edit id) q = search (keeps_rules, calls, forms)
handle-Keeps host (Action.profile_remove id) q = search (keeps_rules, calls, forms)
handle-Keeps host (Action.client_revoke id) q = search (keeps_rules, calls, forms)
handle-Keeps host (Action.client_rotate id) q = search (keeps_rules, calls, forms)
handle-Keeps host (Action.scan_again id) q = search (keeps_rules, calls, forms)

-- Whatever a form of the panel holds and whichever call of the database fails, it keeps these together: every scanner's configuration is one that passes the checks, no two profiles have one key, at most one profile is the default, and no two API clients have one key or one hash.
pub handle-IsWell :
    (host : Host) (a : Action) (q : Request) (s : Panel) → Inv s → Inv (handle host a q s).1
handle-IsWell host a q s h = (handle-Keeps host a q).run s h
