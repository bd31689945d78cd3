-- ===== src/Paths/Containment.antt =====
-- What api/security.py lets through.
use text.Mathlib.TextEquality.{starts_with_iff}
use text.Mathlib.TextLemmas.{append_assoc}
use safe_cloud.Prelude.{
  String, ◌++◌, none, some, Bool, Bool-cases, inl, inr, true, false, ◌==◌, ◌||◌, not, if◌then◌else◌,
  ◌+++◌, rstrip_slash, starts_with, ◌≡◌, ◌≢◌, ◌⊎◌, refl, ap, sym, ◌∙◌, arith, All, eq_iff,
}
use safe_cloud.Paths.{split_slash, normpath, normalize_and_validate_path}
use safe_cloud.Paths.Components.{split_slash-append, not_contains}

-- The parts of the path begin with those of the root, and none is two dots.
abbrev pub IsContained : String → String → Type 0
IsContained root path =
    ((path ≡ root)
      ⊎ ((rest : String) × (split_slash path
            ≡ split_slash (rstrip_slash root) ++ split_slash rest)))
    × All (λ part. part ≢ "..") (split_slash path)

below :
    (dir path : String)
    → starts_with path (dir +++ "/") ≡ true
    → (rest : String) × (split_slash path ≡ split_slash dir ++ split_slash rest)
below dir path h =
    let (rest, e) = (starts_with_iff path (dir +++ "/")).0 h in
    (rest, ap split_slash (sym e ∙ append_assoc dir "/" rest) ∙ split_slash-append dir rest)

accepted :
    (null absolute dots inside : Bool) (normal path : String)
    → (if null
        then none
        else if not absolute
        then none
        else if dots
        then none
        else if inside
        then some normal
        else none)
      ≡ some path
    → (path ≡ normal) × (absolute ≡ true) × (dots ≡ false) × (inside ≡ true)
accepted true absolute dots inside normal path h = cc
accepted false false dots inside normal path h = cc
accepted false true true inside normal path h = cc
accepted false true false false normal path h = cc
accepted false true false true normal path h = (cc, refl, refl, refl)

-- A path that the check returns is the normal form of the path that was given, which is absolute, and lies in the normal form of the root: it equals it, or its parts between slashes begin with the root's (so that a sibling whose name only begins like the root is refused); and none of its parts is two dots.
pub normalize_and_validate_path-IsContained :
    (file_path allowed_root path : String)
    → normalize_and_validate_path file_path allowed_root ≡ some path
    → (path ≡ normpath file_path)
      × (starts_with file_path "/" ≡ true)
      × IsContained (normpath allowed_root) path
unfolding normalize_and_validate_path
normalize_and_validate_path-IsContained file_path allowed_root path h =
    let (e, a, d, i) = accepted _ _ _ _ (normpath file_path) path h in
    rw e (refl, a, (lies i, not_contains _ _ d))
  where
    lies :
        (normpath file_path == normpath allowed_root)
            || starts_with (normpath file_path) (rstrip_slash (normpath allowed_root) +++ "/")
          ≡ true
        → (normpath file_path ≡ normpath allowed_root)
          ⊎ ((rest : String) × (split_slash (normpath file_path)
                ≡ split_slash (rstrip_slash (normpath allowed_root)) ++ split_slash rest))
    lies i = elim (Bool-cases (normpath file_path == normpath allowed_root)) [
      | inl same ↦ inl ((eq_iff _ _).0 same)
      | inr other ↦
          inr (below (rstrip_slash (normpath allowed_root)) (normpath file_path) (ground arith))
    ]
