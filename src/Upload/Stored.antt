-- ===== src/Upload/Stored.antt =====
-- What the row of an upload is, in terms of the form, the bytes and the settings.
use safe_cloud.Prelude.{
  ℕ, String, List, [], ◌∷◌, ◌++◌, Option, none, some, Bool-cases, true, false, not, inl, inr, ◌&&◌,
  ◌≡◌, ◌⊎◌, ◌≤◌, ◌<◌, refl, sym, ap, subst, arith, eq_iff, text_or, strip, extension_of, ◌+++◌,
  contains, is_empty, length,
}
use safe_cloud.Policy.{received}
use safe_cloud.Detection.{detect_mime_type}
use safe_cloud.Db.{ScanInfo, Scan, Profile, World, new_scan, assign, assign_all}
use safe_cloud.Db.ScanLaws.{OnlyAt, update_rows-OnlyAt}
use safe_cloud.Upload.{SystemSettings, check_file_type_policy}
use safe_cloud.Upload.Streaming.{body_of, stream_upload_to_staging-staged_iff}
use safe_cloud.Upload.Handler.{
  UploadCall, UploadEnv, filename_of, max_size, mime_of, info_of_upload,
}
use safe_cloud.Upload.Choice.{IsGranted}
use safe_cloud.Upload.Outcomes.{IsAccepted, Placed, Broken}

-- The limit of the table of settings, or that of the environment.
abbrev pub IsWithin : Option ℕ → ℕ → ℕ → Type 0
IsWithin none default n = n ≤ default
IsWithin (some limit) default n = n ≤ limit

-- What the lists of the settings admit; an empty list of what is allowed allows all.
abbrev pub IsAdmitted : SystemSettings → String → String → Type 0
IsAdmitted s extension mime_type =
    ((extension ≡ "") ⊎ (contains extension s.blocked_extensions ≡ false))
    × ((s.allowed_extensions ≡ []) ⊎ (contains extension s.allowed_extensions ≡ true))
    × (contains mime_type s.blocked_mime_types ≡ false)
    × ((s.allowed_mime_types ≡ []) ⊎ (contains mime_type s.allowed_mime_types ≡ true))

-- The row of an upload: its bytes are those of the reads, not empty and within the limit, its type is
-- admitted, its profile is granted, and no verdict is given.
pub record IsUpload (up : UploadEnv) (call : UploadCall) (profiles : List Profile) (row : Scan)
    : Type 0 where
  pub not_empty : 0 < length (body_of call.chunks)
  pub within :
      IsWithin up.settings.max_file_size_bytes up.env.settings.max_file_size
        (length (body_of call.chunks))
  pub sha256 : row.sha256 ≡ up.sha256_hex (body_of call.chunks)
  pub md5 : row.md5 ≡ some (up.md5_hex (body_of call.chunks))
  pub original_size : row.info.original_size ≡ length (body_of call.chunks)
  pub mime_type :
      row.mime_type
      ≡ some (
          detect_mime_type
            (up.content_of (body_of call.chunks))
            (up.guess_type (text_or call.filename "upload.bin")))
  pub admitted : IsAdmitted up.settings (extension_of (text_or call.filename "upload.bin")) (
      detect_mime_type
        (up.content_of (body_of call.chunks))
        (up.guess_type (text_or call.filename "upload.bin")))
  pub profile : IsGranted call profiles row.info.scanner_profile_id
  pub row_id : row.id ≡ call.row_id
  pub request_id : row.info.request_id ≡ call.request_id
  pub username : row.info.username ≡ strip call.username
  pub filename : row.info.filename ≡ text_or call.filename "upload.bin"
  pub api_client_id : row.info.api_client_id ≡ some call.client.id
  pub transfer_mode : row.info.transfer_mode ≡ "direct_upload"
  pub parent_scan_id : row.info.parent_scan_id ≡ none
  pub status : row.status ≡ received
  pub allowed : row.allowed ≡ none

is_empty-nil : (xs : List String) → is_empty xs ≡ true → xs ≡ []
is_empty-nil [] h = refl
is_empty-nil (x ∷ xs) h = cc

admitted_list :
    (xs : List String) (x : String)
    → not (is_empty xs) && not (contains x xs) ≡ false
    → (xs ≡ []) ⊎ (contains x xs ≡ true)
admitted_list xs x h = elim (Bool-cases (is_empty xs)) [
  | inl e ↦ inl (is_empty-nil xs e)
  | inr e ↦ inr (ground arith)
]

check_file_type_policy-IsAdmitted :
    (s : SystemSettings) (extension mime_type : String)
    → check_file_type_policy s extension mime_type ≡ none
    → IsAdmitted s extension mime_type
unfolding check_file_type_policy
check_file_type_policy-IsAdmitted s extension mime_type h = (
  ground (arith, eq_iff extension ""),
  admitted_list s.allowed_extensions extension (ground arith),
  ground arith,
  admitted_list s.allowed_mime_types mime_type (ground arith),
)

max_size-IsWithin :
    (limit : Option ℕ) (default n : ℕ)
    → n ≤ (elim limit [ none ↦ default | some m ↦ m ])
    → IsWithin limit default n
max_size-IsWithin none default n h = h
max_size-IsWithin (some m) default n h = h

module _ (up : UploadEnv) (call : UploadCall) (profiles : List Profile) where
  read_row :
      (bytes : List ℕ) (profile_id : Option String) (now : ℕ)
      → bytes ≡ body_of call.chunks
      → 0 < length bytes
      → length bytes ≤ max_size up
      → check_file_type_policy up.settings (extension_of (filename_of call)) (mime_of up call bytes)
        ≡ none
      → IsGranted call profiles profile_id
      → IsUpload up call profiles
          (new_scan call.row_id (info_of_upload up call profile_id bytes) now)
  unfolding info_of_upload new_scan
  read_row bytes profile_id now e some_byte size admitted granted =
      let admits = check_file_type_policy-IsAdmitted up.settings _ _ admitted in
      let fits = max_size-IsWithin up.settings.max_file_size_bytes _ _ size in
      record {
        not_empty = subst (λ bs. 0 < length bs) e some_byte;
        within =
            subst
              (λ bs.
                IsWithin up.settings.max_file_size_bytes up.env.settings.max_file_size (length bs))
              e fits;
        sha256 = ap up.sha256_hex e;
        md5 = ap (λ bs. some (up.md5_hex bs)) e;
        original_size = ap length e;
        mime_type = ap (λ bs. some (mime_of up call bs)) e;
        admitted =
            subst
              (λ bs. IsAdmitted up.settings (extension_of (filename_of call)) (mime_of up call bs))
              e admits;
        profile = granted;
        row_id = refl;
        request_id = refl;
        username = refl;
        filename = refl;
        api_client_id = refl;
        transfer_mode = refl;
        parent_scan_id = refl;
        status = refl;
        allowed = refl;
      }

  IsAccepted-IsUpload :
      (info : ScanInfo) (now : ℕ)
      → IsAccepted up call profiles info
      → IsUpload up call profiles (new_scan call.row_id info now)
  IsAccepted-IsUpload info now (bytes, profile_id, same, read, admitted, granted) =
      let (e, some_byte, size) =
        (stream_upload_to_staging-staged_iff (max_size up) bytes call.chunks).0 read in
      subst (λ i. IsUpload up call profiles (new_scan call.row_id i now)) (sym same)
        (read_row bytes profile_id now e some_byte size admitted granted)

-- One row of the upload stands behind the others.
abbrev pub IsAdded : UploadEnv → UploadCall → World → World → Type 0
IsAdded up call before after =
    (row : Scan) × IsUpload up call before.profiles row × (after.scans ≡ before.scans ++ row ∷ [])

-- The row stands behind the others and has the path of its file.
abbrev pub IsStored : UploadEnv → UploadCall → World → World → Type 0
IsStored up call before after =
    (row : Scan) × IsUpload up call before.profiles row
    × OnlyAt call.row_id
        (λ r. record r {
          staging_path = some (up.env.settings.staging_base +++ "/" +++ call.row_id);
        })
        (before.scans ++ row ∷ []) after.scans

pub Placed-IsStored :
    (up : UploadEnv) (call : UploadCall) (before after : World)
    → Placed up call before.scans before.profiles after
    → IsStored up call before after
unfolding assign_all assign
Placed-IsStored up call before after (info, now, accepted, rows) = (
  new_scan call.row_id info now,
  IsAccepted-IsUpload up call before.profiles info now accepted,
  subst (OnlyAt call.row_id _ (before.scans ++ new_scan call.row_id info now ∷ [])) (sym rows)
      (update_rows-OnlyAt call.row_id _ _),
)

pub Broken-IsAdded :
    (up : UploadEnv) (call : UploadCall) (before after : World)
    → Broken up call before.scans before.profiles after
    → (after.scans ≡ before.scans) ⊎ IsAdded up call before after
Broken-IsAdded up call before after (inl same) = inl same
Broken-IsAdded up call before after (inr (info, now, accepted, rows)) = inr (
  new_scan call.row_id info now,
  IsAccepted-IsUpload up call before.profiles info now accepted,
  rows,
)
