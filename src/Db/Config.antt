-- ===== src/Db/Config.antt =====
-- The tables that the pipeline reads: profiles, their scanners, and the encrypted-file policies.
use safe_cloud.Prelude.{
  String, List, [], ◌∷◌, Option, none, some, Bool, ◌==◌, ◌&&◌, ◌++◌, ltb, if◌then◌else◌, select,
}
use safe_cloud.Db.Rows.{ScannerConfig, Profile, Membership, World, Db, query}

unfoldable pub find_profile : (Profile → Bool) → List Profile → Option Profile
find_profile p [] = none
find_profile p (r ∷ rs) = let rest = find_profile p rs in if p r then some r else rest

unfoldable pub get_profile : String → Db (Option Profile)
get_profile profile_id = query (λ w. find_profile (λ p. p.id == profile_id) w.profiles)

unfoldable pub get_default_profile : Db (Option Profile)
get_default_profile = query (λ w. find_profile (λ p. p.is_default) w.profiles)

-- `ORDER BY order_index`, stable.
unfoldable pub insert_member : Membership → List Membership → List Membership
insert_member m [] = m ∷ []
insert_member m (n ∷ ns) =
    if ltb m.order_index n.order_index then m ∷ n ∷ ns else n ∷ insert_member m ns

unfoldable pub sort_members : List Membership → List Membership → List Membership
unfolding insert_member
sort_members sorted [] = sorted
sort_members sorted (m ∷ ms) = sort_members (insert_member m sorted) ms

-- The join with the enabled scanners.
unfoldable pub scanners_of : List Membership → List ScannerConfig → List ScannerConfig
scanners_of [] scanners = []
scanners_of (m ∷ ms) scanners =
    select (λ s. s.id == m.scanner_id && s.enabled) scanners ++ scanners_of ms scanners

unfoldable pub profile_scanners : String → World → List ScannerConfig
unfolding sort_members
profile_scanners profile_id w =
    scanners_of (sort_members [] (select (λ m. m.profile_id == profile_id) w.memberships))
      w.scanners

unfoldable pub get_profile_scanners : String → Db (List ScannerConfig)
get_profile_scanners profile_id = query (profile_scanners profile_id)

unfoldable pub get_encrypted_policies : Db (List (String × String))
get_encrypted_policies = query (λ w. w.encrypted_policies)
