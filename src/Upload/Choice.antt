-- ===== src/Upload/Choice.antt =====
-- Which profile an upload is scanned with.
use safe_cloud.Prelude.{
  String, List, Option, none, some, Bool, true, false, inl, inr, ◌==◌, ◌≡◌, ◌≢◌, ◌⊎◌, refl, ap, ◌∙◌,
  arith, eq_iff, text_or, if◌then◌else◌,
}
use safe_cloud.Db.{Profile, find_profile}
use safe_cloud.Upload.{
  ProfileChoice, chosen, restricted, unknown_or_disabled, check_pinned, check_requested,
}
use safe_cloud.Upload.Handler.{UploadCall}

-- The profile is the one that the client is bound to, or an enabled one that it asked for, or the
-- default, which is found when the scan runs.
abbrev pub IsGranted : UploadCall → List Profile → Option String → Type 0
IsGranted call profiles profile_id =
    ((profile_id ≡ some (text_or call.client.scanner_profile_id ""))
      × (text_or call.client.scanner_profile_id "" ≢ ""))
    ⊎ ((p : Profile) × (find_profile (λ p. p.slug == text_or call.profile "") profiles ≡ some p)
        × (p.enabled ≡ true)
        × (profile_id ≡ some p.id)
        × (text_or call.client.scanner_profile_id "" ≡ ""))
    ⊎ ((profile_id ≡ none)
        × (text_or call.client.scanner_profile_id "" ≡ "")
        × (text_or call.profile "" ≡ ""))

pub some_text : (t : String) → (t == "") ≡ false → t ≢ ""
some_text t e h = ground (arith, eq_iff t "")

module _ (call : UploadCall) (profiles : List Profile) where
  abbrev pub IsChoice : ProfileChoice → Type 0
  IsChoice (chosen profile_id) = IsGranted call profiles profile_id
  IsChoice _ = Unit

  pub check_pinned-IsChoice :
      (pinned slug : String) (found : Option Profile)
      → pinned ≡ text_or call.client.scanner_profile_id ""
      → pinned ≢ ""
      → IsChoice (check_pinned call.client pinned slug found)
  unfolding check_pinned
  check_pinned-IsChoice pinned slug none e n = inl (ap some e, λ z. n (e ∙ z))
  check_pinned-IsChoice pinned slug (some p) e n = go (p.slug == slug)
    where
      go :
          (b : Bool)
          → IsChoice (if b then chosen (some pinned) else restricted call.client.name p.slug slug)
      go true = inl (ap some e, λ z. n (e ∙ z))
      go false = tt

  pub check_requested-IsChoice :
      (found : Option Profile)
      → find_profile (λ p. p.slug == text_or call.profile "") profiles ≡ found
      → text_or call.client.scanner_profile_id "" ≡ ""
      → IsChoice (check_requested (text_or call.profile "") found)
  unfolding check_requested
  check_requested-IsChoice none e n = tt
  check_requested-IsChoice (some p) e n = go p.enabled refl
    where
      go :
          (b : Bool)
          → p.enabled ≡ b
          → IsChoice
              (if b then chosen (some p.id) else unknown_or_disabled (text_or call.profile ""))
      go true on = inr (inl (p, e, on, refl, n))
      go false on = tt
