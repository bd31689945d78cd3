-- ===== src/Detection.antt =====
-- api/encryption_detect.py: whether a file is encrypted, from its first bytes and, for ZIP and PDF,
-- from the answer of `zipfile` and `pypdf`, which are parameters (`FileContent`).
pub mod Verdicts
use safe_cloud.Prelude.{
  ℕ, String, List, [], ◌∷◌, Option, none, some, Bool, true, false, ◌||◌, ◌==◌, if◌then◌else◌, codes,
  codes_in, has_prefix, has_infix, lower, lower_code, map, path_suffix,
}

-- What `zipfile.ZipFile` and `testzip()` do: the first bad entry or none, or what they raise; the
-- source catches `RuntimeError` and `BadZipFile` alone.
pub data ZipOutcome : Type 0 where
  no_bad_entry : ZipOutcome
  bad_entry runtime_error : String → ZipOutcome
  bad_zip_file other_exception : ZipOutcome

-- What `PdfReader(file_path)` does; the import of pypdf may fail too.
pub data PdfOutcome : Type 0 where
  import_error read_error other_error : PdfOutcome
  reader : Bool → PdfOutcome

-- A file as the module reads it: its bytes, or `none` where `open` raises `OSError`.
pub record FileContent : Type 0 where
  pub bytes : Option (List ℕ)
  pub zip : ZipOutcome
  pub pdf : PdfOutcome

pub record EncryptionDetection : Type 0 where
  pub encrypted : Option Bool
  pub encryption_type : Option String
  pub category : String

abbrev pub found : Option Bool → Option String → String → EncryptionDetection
found e t c = record { encrypted = e; encryption_type = t; category = c }

abbrev pub ooxml_extensions : List String
ooxml_extensions = ".docx" ∷ ".xlsx" ∷ ".pptx" ∷ ".docm" ∷ ".xlsm" ∷ ".pptm" ∷ []

abbrev legacy_office_extensions : List String
legacy_office_extensions = ".doc" ∷ ".xls" ∷ ".ppt" ∷ []

abbrev pub archive_extensions : List String
archive_extensions = ".zip" ∷ ".rar" ∷ ".7z" ∷ []

abbrev pub pdf_magic : List ℕ
pdf_magic = codes "%PDF"

abbrev pub cfbf_magic : List ℕ
cfbf_magic = 0xd0 ∷ 0xcf ∷ 0x11 ∷ 0xe0 ∷ 0xa1 ∷ 0xb1 ∷ 0x1a ∷ 0xe1 ∷ []

abbrev pub pk_magic : List ℕ
pk_magic = b'P' ∷ b'K' ∷ 3 ∷ 4 ∷ []

abbrev pub pk_empty_magic : List ℕ
pk_empty_magic = b'P' ∷ b'K' ∷ 5 ∷ 6 ∷ []

abbrev pub rar4_magic : List ℕ
rar4_magic = b'R' ∷ b'a' ∷ b'r' ∷ b'!' ∷ 0x1a ∷ 7 ∷ 0 ∷ []

abbrev pub rar5_magic : List ℕ
rar5_magic = b'R' ∷ b'a' ∷ b'r' ∷ b'!' ∷ 0x1a ∷ 7 ∷ 1 ∷ 0 ∷ []

abbrev pub sevenzip_magic : List ℕ
sevenzip_magic = b'7' ∷ b'z' ∷ 0xbc ∷ 0xaf ∷ 0x27 ∷ 0x1c ∷ []

-- `f.read(n)`
pub take : ℕ → List ℕ → List ℕ
take ℕ.zero xs = []
take (ℕ.suc n) [] = []
take (ℕ.suc n) (x ∷ xs) = x ∷ take n xs

-- `_detect_zip`, for a lowered extension.
-- `none` is an exception that is not caught.
detect_zip : ZipOutcome → List ℕ → Option EncryptionDetection
detect_zip outcome ext =
    let category =
      if codes_in ext ooxml_extensions then "office_encrypted" else "archive_password_protected" in
    elim outcome [
      | no_bad_entry ↦ some (found (some false) none category)
      | bad_entry name ↦ some (found (some true) (some "zip_encrypted") category)
      | runtime_error message ↦
          if has_infix (lower message) (codes "password")
            || has_infix (lower message) (codes "encrypt")
          then some (found (some true) (some "zip_encrypted") category)
          else some (found none (some "zip_archive") category)
      | bad_zip_file ↦ some (found none none "unknown_encryption")
      | other_exception ↦ none
    ]

detect_pdf : PdfOutcome → EncryptionDetection
detect_pdf import_error = found none (some "pdf") "unknown_encryption"
detect_pdf read_error = found none (some "pdf") "unknown_encryption"
detect_pdf other_error = found none (some "pdf") "unknown_encryption"
detect_pdf (reader is_encrypted) =
    found (some is_encrypted) (if is_encrypted then some "pdf_encrypted" else none) "pdf_encrypted"

-- `detect_encryption` behind the read of the header.
unfoldable pub by_header : List ℕ → FileContent → List ℕ → Option EncryptionDetection
unfolding detect_zip detect_pdf
by_header header content ext =
    if has_prefix header pdf_magic
    then some (detect_pdf content.pdf)
    else if has_prefix header pk_magic || has_prefix header pk_empty_magic
    then detect_zip content.zip ext
    else if has_prefix header cfbf_magic
    then (if codes_in ext ooxml_extensions
        then some (found (some true) (some "office_encrypted") "office_encrypted")
        else if codes_in ext legacy_office_extensions
        then some (found none (some "ole_compound_file") "unknown_encryption")
        else some (found none (some "ole_compound_file") "unknown_encryption"))
    else if has_prefix header rar4_magic || has_prefix header rar5_magic
    then some (found none (some "rar_archive") "unknown_encryption")
    else if has_prefix header sevenzip_magic
    then some (found none (some "7z_archive") "unknown_encryption")
    else if codes_in ext archive_extensions
    then some (found none none "unknown_encryption")
    else some (found (some false) none "default")

-- `Path(filename).suffix.lower()`
abbrev pub extension : String → List ℕ
extension filename = map lower_code (path_suffix (codes filename))

unfoldable pub detect_encryption : FileContent → String → Option EncryptionDetection
unfolding take
detect_encryption content filename = elim content.bytes [
  | none ↦ some (found none none "unknown_encryption")
  | some bytes ↦ by_header (take 8 bytes) content (extension filename)
]

magic_table : List (List ℕ × String)
magic_table =
    (pdf_magic, "application/pdf")
    ∷ (pk_magic, "application/zip")
    ∷ (cfbf_magic, "application/x-ole-storage")
    ∷ (0x89 ∷ b'P' ∷ b'N' ∷ b'G' ∷ 13 ∷ 10 ∷ 0x1a ∷ 10 ∷ [], "image/png")
    ∷ (0xff ∷ 0xd8 ∷ 0xff ∷ [], "image/jpeg")
    ∷ (codes "GIF87a", "image/gif")
    ∷ (codes "GIF89a", "image/gif")
    ∷ (rar4_magic, "application/vnd.rar")
    ∷ (rar5_magic, "application/vnd.rar")
    ∷ (sevenzip_magic, "application/x-7z-compressed")
    ∷ []

-- The loop over the table; `guessed` is the answer of `mimetypes.guess_type`.
by_magic : List ℕ → List (List ℕ × String) → Option String → String
by_magic header [] none = "application/octet-stream"
by_magic header [] (some guessed) = if guessed == "" then "application/octet-stream" else guessed
by_magic header ((magic, mime) ∷ table) guessed =
    let rest = by_magic header table guessed in if has_prefix header magic then mime else rest

unfoldable pub detect_mime_type : FileContent → Option String → String
unfolding by_magic take magic_table has_prefix
detect_mime_type content guessed = elim content.bytes [
  | none ↦ by_magic [] magic_table guessed
  | some bytes ↦ by_magic (take 16 bytes) magic_table guessed
]
