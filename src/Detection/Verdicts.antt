-- ===== src/Detection/Verdicts.antt =====
-- What a report of api/encryption_detect.py rests on.
use safe_cloud.Prelude.{
  Option-cases, inl, inr, ℕ, String, List, some, true, false, ◌||◌, ◌≡◌, ◌⊎◌, arith, codes_in,
  has_prefix,
}
use safe_cloud.Detection.{
  ZipOutcome, no_bad_entry, PdfOutcome, reader, FileContent, EncryptionDetection, pdf_magic,
  cfbf_magic, pk_magic, pk_empty_magic, rar4_magic, rar5_magic, sevenzip_magic, archive_extensions,
  take, extension, detect_zip, detect_pdf, by_header, detect_encryption,
}

-- What the first bytes, and what is read behind them, say of a file that is not encrypted.
abbrev pub HasPlainHeader : List ℕ → FileContent → String → Type 0
HasPlainHeader header content filename =
    (((has_prefix header pdf_magic ≡ true) × (content.pdf ≡ reader false))
      ⊎ ((has_prefix header pk_magic || has_prefix header pk_empty_magic ≡ true)
          × (content.zip ≡ no_bad_entry))
      ⊎ ((has_prefix header pdf_magic ≡ false)
          × (has_prefix header pk_magic ≡ false)
          × (has_prefix header pk_empty_magic ≡ false)
          × (has_prefix header cfbf_magic ≡ false)
          × (has_prefix header rar4_magic ≡ false)
          × (has_prefix header rar5_magic ≡ false)
          × (has_prefix header sevenzip_magic ≡ false)
          × (codes_in (extension filename) archive_extensions ≡ false)))

-- The evidence that a file is not encrypted: its PDF reader or its ZIP test says so, or it has
-- neither the first bytes nor the extension of a container.
abbrev pub IsPlain : FileContent → String → Type 0
IsPlain content filename =
    (bytes : List ℕ) × (content.bytes ≡ some bytes) × HasPlainHeader (take 8 bytes) content filename

by_header-false_sound :
    (header : List ℕ) (content : FileContent) (filename : String) (d : EncryptionDetection)
    → by_header header content (extension filename) ≡ some d
    → d.encrypted ≡ some false
    → HasPlainHeader header content filename
unfolding by_header
by_header-false_sound header content filename d e h = ground arith

-- If the module reports that a file is not encrypted, then the file could be opened, and: it begins as a PDF that pypdf reads as not encrypted, or it begins as a ZIP in which the test finds no bad entry, or it begins as no PDF, ZIP, compound file, RAR or 7z and its extension is no archive's.
pub detect_encryption-false_sound :
    (content : FileContent) (filename : String) (d : EncryptionDetection)
    → detect_encryption content filename ≡ some d
    → d.encrypted ≡ some false
    → IsPlain content filename
unfolding detect_encryption
detect_encryption-false_sound content filename d e h = elim (Option-cases content.bytes) [
  | inl o ↦ ground arith
  | inr (bytes, o) ↦
      (bytes, o, by_header-false_sound (take 8 bytes) content filename d (ground arith) h)
]

abbrev pub IsCategory : EncryptionDetection → Type 0
IsCategory d =
    (d.category ≡ "archive_password_protected")
    ⊎ (d.category ≡ "pdf_encrypted")
    ⊎ (d.category ≡ "office_encrypted")
    ⊎ (d.category ≡ "unknown_encryption")
    ⊎ ((d.category ≡ "default") × (d.encrypted ≡ some false))

detect_zip-IsCategory :
    (outcome : ZipOutcome) (ext : List ℕ) (d : EncryptionDetection)
    → detect_zip outcome ext ≡ some d
    → IsCategory d
unfolding detect_zip
detect_zip-IsCategory outcome ext d e = ground arith

detect_pdf-IsCategory : (outcome : PdfOutcome) → IsCategory (detect_pdf outcome)
unfolding detect_pdf
detect_pdf-IsCategory (reader b) = ground arith
detect_pdf-IsCategory _ = ground arith

by_header-IsCategory :
    (header : List ℕ) (content : FileContent) (ext : List ℕ) (d : EncryptionDetection)
    → by_header header content ext ≡ some d
    → IsCategory d
unfolding by_header
by_header-IsCategory header content ext d e =
    ground (arith, detect_zip-IsCategory content.zip ext d, detect_pdf-IsCategory content.pdf)

-- Whatever the file, a report's category is one of the table's rows archive_password_protected, pdf_encrypted, office_encrypted and unknown_encryption, or it is default and the file is reported as not encrypted.
pub detect_encryption-IsCategory :
    (content : FileContent) (filename : String) (d : EncryptionDetection)
    → detect_encryption content filename ≡ some d
    → IsCategory d
unfolding detect_encryption
detect_encryption-IsCategory content filename d e = elim (Option-cases content.bytes) [
  | inl o ↦ ground arith
  | inr (bytes, o) ↦
      by_header-IsCategory (take 8 bytes) content (extension filename) d (ground arith)
]
