-- ===== src/Policy/Encrypted.antt =====
-- The policy for encrypted files: api/policy.py, `resolve_encrypted_policy` and
-- `apply_encrypted_policy`.
use safe_cloud.Prelude.{
  Option-cases, inl, inr, String, List, true, some, none, ◌≡◌, ◌≢◌, ◌⊎◌, ◌↔◌, arith, eq_iff, lookup,
}
use safe_cloud.Policy.{
  allowed_by_policy, denied_by_policy, quarantined_by_policy, marked_for_review, unknown_encrypted,
  encrypted, resolve_encrypted_policy, apply_encrypted_policy,
}

-- The verdict on an encrypted file has the status ENCRYPTED; the file is allowed exactly under ALLOW, is quarantined exactly under QUARANTINE and MARK_FOR_REVIEW, and needs a review exactly under MARK_FOR_REVIEW, so that no unknown policy allows it; and its reason names the category under each of the four policies, each in its own words, and the policy where it is unknown.
pub apply_encrypted_policy_exact :
    (policy category : String)
    → ((apply_encrypted_policy policy category).status ≡ encrypted)
      × (((apply_encrypted_policy policy category).allowed ≡ true) ↔ (policy ≡ "ALLOW"))
      × (((apply_encrypted_policy policy category).quarantine ≡ true)
          ↔ ((policy ≡ "QUARANTINE") ⊎ (policy ≡ "MARK_FOR_REVIEW")))
      × (((apply_encrypted_policy policy category).needs_review ≡ true)
          ↔ (policy ≡ "MARK_FOR_REVIEW"))
      × (((apply_encrypted_policy policy category).reason ≡ allowed_by_policy category)
          ↔ (policy ≡ "ALLOW"))
      × (((apply_encrypted_policy policy category).reason ≡ denied_by_policy category)
          ↔ (policy ≡ "DENY"))
      × (((apply_encrypted_policy policy category).reason ≡ quarantined_by_policy category)
          ↔ (policy ≡ "QUARANTINE"))
      × (((apply_encrypted_policy policy category).reason ≡ marked_for_review category)
          ↔ (policy ≡ "MARK_FOR_REVIEW"))
      × (((apply_encrypted_policy policy category).reason ≡ unknown_encrypted policy) ↔ (
          (policy ≢ "ALLOW")
          × (policy ≢ "DENY")
          × (policy ≢ "QUARANTINE")
          × (policy ≢ "MARK_FOR_REVIEW")))
unfolding apply_encrypted_policy
apply_encrypted_policy_exact policy category = ground (
  arith,
  eq_iff policy "ALLOW",
  eq_iff policy "DENY",
  eq_iff policy "QUARANTINE",
  eq_iff policy "MARK_FOR_REVIEW",
  eq_iff "ALLOW" "QUARANTINE",
  eq_iff "ALLOW" "MARK_FOR_REVIEW",
  eq_iff "DENY" "QUARANTINE",
  eq_iff "DENY" "MARK_FOR_REVIEW",
  eq_iff "QUARANTINE" "MARK_FOR_REVIEW",
  eq_iff "ALLOW" "DENY",
)

-- The policy's row of the table is missing, or holds the empty text.
abbrev pub IsUnset : String → List (String × String) → Type 0
IsUnset category policies = (lookup category policies ≡ none) ⊎ (lookup category policies ≡ some "")

resolve-allow_iff :
    (category : String) (policies : List (String × String))
    → (resolve_encrypted_policy category policies ≡ "ALLOW") ↔ (
        (lookup category policies ≡ some "ALLOW")
        ⊎ (IsUnset category policies × (lookup "default" policies ≡ some "ALLOW")))
unfolding resolve_encrypted_policy
resolve-allow_iff category policies = elim (Option-cases (lookup category policies)) [
  | inl e ↦ elim (Option-cases (lookup "default" policies)) [
    | inl d ↦ rw (e, d) (ground (arith, eq_iff "DENY" "ALLOW"))
    | inr (p, d) ↦ rw (e, d) (ground (arith, eq_iff p "", eq_iff "DENY" "ALLOW", eq_iff "" "ALLOW"))
  ]
  | inr (q, e) ↦ elim (Option-cases (lookup "default" policies)) [
    | inl d ↦ rw (e, d) (ground (arith, eq_iff q "", eq_iff "DENY" "ALLOW", eq_iff "" "ALLOW"))
    | inr (p, d) ↦
        rw (e, d)
          (ground (arith, eq_iff q "", eq_iff p "", eq_iff "DENY" "ALLOW", eq_iff "" "ALLOW"))
  ]
]

-- With the policies of the table, an encrypted file is allowed exactly if its category's policy is ALLOW, or if the category has no policy and the default's is ALLOW.
pub encrypted-allowed_iff :
    (category : String) (policies : List (String × String))
    → ((apply_encrypted_policy (resolve_encrypted_policy category policies) category).allowed
        ≡ true)
      ↔ ((lookup category policies ≡ some "ALLOW")
          ⊎ (IsUnset category policies × (lookup "default" policies ≡ some "ALLOW")))
encrypted-allowed_iff category policies =
    let (_, allow, _, _, _, _, _, _, _) =
      apply_encrypted_policy_exact (resolve_encrypted_policy category policies) category in
    let r = resolve-allow_iff category policies in (λ h. r.0 (allow.0 h), λ h. allow.1 (r.1 h))
