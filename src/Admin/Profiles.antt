-- ===== src/Admin/Profiles.antt =====
-- api/panel/admin_profiles.py: the forms for profiles.
use safe_cloud.Prelude.{
  String, List, [], ◌∷◌, Option, none, some, Bool, true, false, not, ◌==◌, ◌&&◌, ltb, if◌then◌else◌,
  ◌+++◌, contains, is_empty, codes, strip, lower_text,
}
use safe_cloud.Policy.{aggregation_policies}
use safe_cloud.Exec.{pure, when, ◌>>=◌, ◌>>◌}
use safe_cloud.Db.{Profile, connect, get_profile}
use safe_cloud.Validation.{is_slug}
use safe_cloud.Admin.Tables.{ℤ, pos, negsuc, Admin, within}
use safe_cloud.Admin.Config.{
  create_profile, update_profile, set_default_profile, delete_profile, set_profile_scanners,
}
use safe_cloud.Admin.Requests.{
  Form, Request, Host, Page, redirected, form_error, get_or, is_on, audit, guarded, differ,
}

unfoldable pub validate_profile_form : Form → (editing : Bool) → Option String
validate_profile_form form editing =
    if strip (get_or form "name" "") == ""
    then some "Name is required"
    else if not editing && not (is_slug (codes (lower_text (strip (get_or form "slug" "")))))
    then some "Slug must be lowercase alphanumeric with hyphens, 2-63 chars"
    else if not (contains (get_or form "aggregation_policy" "") aggregation_policies)
    then some "aggregation_policy must be one of the four policies"
    else if is_empty (form.getlist "scanner_ids")
    then some "Select at least one scanner for this profile"
    else none

unfoldable pub ℤ_ltb : ℤ → ℤ → Bool
ℤ_ltb (pos a) (pos b) = ltb a b
ℤ_ltb (pos a) (negsuc b) = false
ℤ_ltb (negsuc a) (pos b) = true
ℤ_ltb (negsuc a) (negsuc b) = ltb b a

abbrev order_of : (String → Option ℤ) → Form → String → ℤ
order_of int_of form id = elim (form.get ("order_" +++ id)) [
  | none ↦ pos 0
  | some v ↦ elim (int_of v) [ none ↦ pos 0 | some n ↦ n ]
]

-- A stable insertion: behind the entries whose key is not larger.
unfoldable pub insert_by : (String → ℤ) → String → List String → List String
insert_by key id [] = id ∷ []
insert_by key id (x ∷ xs) =
    let more = insert_by key id xs in if ℤ_ltb (key id) (key x) then id ∷ x ∷ xs else x ∷ more

unfoldable pub sort_by : (String → ℤ) → List String → List String → List String
sort_by key sorted [] = sorted
sort_by key sorted (id ∷ ids) = sort_by key (insert_by key id sorted) ids

unfoldable pub ordered_scanner_ids : Host → Form → List String
ordered_scanner_ids host form = sort_by (order_of host.int_of form) [] (form.getlist "scanner_ids")

-- The page of a refused form lists the scanners.
unfoldable pub refuse_form : String → Admin Page
refuse_form message = do within connect; pure (form_error message)

unfoldable pub save_new_profile : Host → Request → Option String → Admin Page
save_new_profile host q (some message) = refuse_form message
save_new_profile host q none = do
  _ ← within (
      create_profile q.row_id (strip (get_or q.form "name" ""))
        (lower_text (strip (get_or q.form "slug" ""))) (is_on q.form "enabled")
        (get_or q.form "aggregation_policy" "ALL_MUST_PASS"))
  within (set_profile_scanners q.row_id (ordered_scanner_ids host q.form))
  when (is_on q.form "is_default") (within (set_default_profile q.row_id))
  audit q "profile_created" "scanner_profile" (some q.row_id)
  pure (redirected "/profiles")

unfoldable pub profile_new_submit : Host → Request → Admin Page
profile_new_submit host q = guarded q (save_new_profile host q (validate_profile_form q.form false))

abbrev profile_action : Bool → String
profile_action b = if b then "profile_enabled" else "profile_disabled"

unfoldable pub save_profile : Host → Request → Profile → Option String → Admin Page
save_profile host q existing (some message) = refuse_form message
save_profile host q existing none = do
  within (
      update_profile existing.id (strip (get_or q.form "name" "")) (is_on q.form "enabled")
        (get_or q.form "aggregation_policy" "ALL_MUST_PASS"))
  within (set_profile_scanners existing.id (ordered_scanner_ids host q.form))
  when (is_on q.form "is_default") (within (set_default_profile existing.id))
  audit q "profile_modified" "scanner_profile" (some existing.id)
  when (differ existing.enabled (is_on q.form "enabled"))
      (audit q (profile_action (is_on q.form "enabled")) "scanner_profile" (some existing.id))
  pure (redirected "/profiles")

unfoldable pub edit_profile : Host → Request → Option Profile → Admin Page
edit_profile host q none = pure (redirected "/profiles")
edit_profile host q (some existing) =
    save_profile host q existing (validate_profile_form q.form true)

unfoldable pub profile_edit_submit : Host → Request → String → Admin Page
profile_edit_submit host q profile_id =
    guarded q (within (get_profile profile_id) >>= edit_profile host q)

unfoldable pub profile_delete : Request → String → Admin Page
profile_delete q profile_id = guarded q (
    delete_profile profile_id
    >> audit q "profile_deleted" "scanner_profile" (some profile_id)
    >> pure (redirected "/profiles"))
