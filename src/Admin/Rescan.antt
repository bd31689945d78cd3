-- ===== src/Admin/Rescan.antt =====
-- What a re-scan of the panel does to the table of scans.
use safe_cloud.Prelude.{
  ℕ, String, List, [], ◌∷◌, ◌++◌, Option, none, some, Bool, true, false, inl, inr, ◌≡◌, ◌⊎◌, refl,
  sym, ap,
}
use safe_cloud.Exec.{Result, ok, raised, pure, raise}
use safe_cloud.Exec.Triple.{
  Post, Triple, Triple_of_Keeps, Triple-weaken, Triple-bind, Triple-if, Triple-pure, Triple-raise,
  Triple-gets, Triple-modify, Keeps, Keeps-Post,
}
use safe_cloud.Db.{
  Scan, World, Db, connect, query, execute, find_scan, get_scan, create_scan, new_scan,
}
use safe_cloud.Policy.{received}
use safe_cloud.Admin.Tables.{Panel, Admin, within, transact, record_audit}
use safe_cloud.Admin.Requests.{Request, Page, audit, after_csrf, guarded}
use safe_cloud.Admin.Settings.{rescan_info, rescan_row, rescan}

-- A freshly received scan of the original's file.
pub record IsRescan (q : Request) (id : String) (original : Scan) (now : ℕ) (row : Scan)
    : Type 0 where
  pub row_id : row.id ≡ q.row_id
  pub created_at : row.created_at ≡ now
  pub status : row.status ≡ received
  pub allowed : row.allowed ≡ none
  pub request_id : row.info.request_id ≡ q.secret
  pub parent_scan_id : row.info.parent_scan_id ≡ some id
  pub sha256 : row.sha256 ≡ original.sha256
  pub mime_type : row.mime_type ≡ original.mime_type
  pub md5 : row.md5 ≡ original.md5
  pub username : row.info.username ≡ original.info.username
  pub user_id : row.info.user_id ≡ original.info.user_id
  pub email : row.info.email ≡ original.info.email
  pub department : row.info.department ≡ original.info.department
  pub nextcloud_host : row.info.nextcloud_host ≡ original.info.nextcloud_host
  pub nextcloud_file_path : row.info.nextcloud_file_path ≡ original.info.nextcloud_file_path
  pub relative_path : row.info.relative_path ≡ original.info.relative_path
  pub filename : row.info.filename ≡ original.info.filename
  pub original_filename : row.info.original_filename ≡ original.info.original_filename
  pub extension : row.info.extension ≡ original.info.extension
  pub original_size : row.info.original_size ≡ original.info.original_size
  pub source_application : row.info.source_application ≡ original.info.source_application
  pub api_client_id : row.info.api_client_id ≡ original.info.api_client_id
  pub scanner_profile_id : row.info.scanner_profile_id ≡ original.info.scanner_profile_id
  pub transfer_mode : row.info.transfer_mode ≡ original.info.transfer_mode

rescan_info-IsRescan :
    (q : Request) (id : String) (original : Scan) (now : ℕ)
    → IsRescan q id original now (new_scan q.row_id (rescan_info q id original) now)
unfolding rescan_info new_scan
rescan_info-IsRescan q id original now = record {
  row_id = refl;
  created_at = refl;
  status = refl;
  allowed = refl;
  request_id = refl;
  parent_scan_id = refl;
  sha256 = refl;
  mime_type = refl;
  md5 = refl;
  username = refl;
  user_id = refl;
  email = refl;
  department = refl;
  nextcloud_host = refl;
  nextcloud_file_path = refl;
  relative_path = refl;
  filename = refl;
  original_filename = refl;
  extension = refl;
  original_size = refl;
  source_application = refl;
  api_client_id = refl;
  scanner_profile_id = refl;
  transfer_mode = refl;
}

-- What a re-scan leaves: the table as it was, or with one new row behind the others.
abbrev pub Rescanned : Request → String → List Scan → List Scan → Type 0
Rescanned q id before after =
    (after ≡ before)
    ⊎ ((original : Scan) × (now : ℕ) × (find_scan id before ≡ some original)
        × ((row : Scan) × IsRescan q id original now row × (after ≡ before ++ row ∷ [])))

within-Triple :
    {A : Type 0} {P : World → Type 0} {Q : A → World → Type 0} {E : World → Type 0} (m : Db A)
    → Triple P m Q E
    → Triple (λ s. P s.world) (within m) (λ a s. Q a s.world) (λ s. E s.world)
unfolding within
within-Triple {A} {P} {Q} {E} m t = record {
  run = λ s h. go s (m s.world).0 (m s.world).1 (t.run s.world h);
}
  where
    go :
        (s : Panel) (r : Result A) (w : World)
        → Post Q E r w
        → Post (λ a s. Q a s.world) (λ s. E s.world) r (record s { world = w })
    go s (ok a) w h = h
    go s (raised x) w h = h

module _ (q : Request) (id : String) (before : List Scan) where
  abbrev Same : Panel → Type 0
  Same s = s.world.scans ≡ before

  abbrev Leaves : Panel → Type 0
  Leaves s = Rescanned q id before s.world.scans

  connect-same : (P : List Scan → Type 0) → Keeps (λ w. P w.scans) connect
  unfolding connect pure raise
  connect-same P = record { run = λ w h. go w w.faults refl h }
    where
      go : (w : World) (fs : List Bool) → w.faults ≡ fs → P w.scans → P (connect w).1.scans
      go w [] e h = rw (e, connect) h
      go w (true ∷ fs) e h = rw (e, connect) h
      go w (false ∷ fs) e h = rw (e, connect) h

  Same-Leaves : (s : Panel) → Same s → Leaves s
  Same-Leaves s h = inl h

  connect-Same :
      Triple
        (λ w. w.scans ≡ before)
        connect
        (λ _ w. w.scans ≡ before)
        (λ w. Rescanned q id before w.scans)
  connect-Same =
      Triple-weaken (λ w h. h) (λ a w h. h) (λ w h. inl h)
        (Triple_of_Keeps (connect-same (λ rs. rs ≡ before)))

  audit-Leaves :
      (action object_type : String) (object_id : Option String)
      → Triple Leaves (audit q action object_type object_id) (λ _. Leaves) Leaves
  unfolding audit record_audit transact
  audit-Leaves action object_type object_id =
      Triple-bind _ _ (within-Triple _ (Triple_of_Keeps (connect-same (Rescanned q id before))))
        (λ _. Triple-modify _ (λ s h. h))

  get_scan-Same :
      Triple Same
        (within (get_scan id))
        (λ found s. (found ≡ find_scan id before) × (s.world.scans ≡ before))
        Leaves
  unfolding get_scan query
  get_scan-Same =
      within-Triple _
        (Triple-bind _ _ connect-Same (λ _. Triple-gets _ (λ w h. (ap (find_scan id) h, h))))

  create_scan-Leaves :
      (original : Scan)
      → find_scan id before ≡ some original
      → Triple Same (within (create_scan q.row_id (rescan_info q id original))) (λ _. Leaves) Leaves
  unfolding create_scan execute
  create_scan-Leaves original e = within-Triple _ (
      Triple-bind {Q = λ _ w. w.scans ≡ before} _ _ (Triple-gets _ (λ w h. h)) (λ now.
        Triple-bind {Q = λ _ w. Rescanned q id before w.scans} _ _
          (Triple-bind _ _ connect-Same (λ _. Triple-modify _ (λ w h. inr (
            original,
            now,
            e,
            (
              new_scan q.row_id (rescan_info q id original) now,
              rescan_info-IsRescan q id original now,
              ap (λ rs. rs ++ new_scan q.row_id (rescan_info q id original) now ∷ []) h,
            ),
          ))))
          (λ _. Triple-pure _ (λ w h. h))))

  rescan_row-Leaves :
      (found : Option Scan)
      → Triple
          (λ s. (found ≡ find_scan id before) × (s.world.scans ≡ before))
          (rescan_row q id found)
          (λ _. Leaves)
          Leaves
  unfolding rescan_row
  rescan_row-Leaves none = Triple-pure _ (λ s h. inl h.1)
  rescan_row-Leaves (some original) = record { run = λ s h. (stored (sym h.0)).run s h.1 }
    where
      stored :
          find_scan id before ≡ some original
          → Triple Same (rescan_row q id (some original)) (λ _. Leaves) Leaves
      stored e =
          Triple-bind _ _ (create_scan-Leaves original e)
            (λ new_row. Triple-bind _ _ (audit-Leaves _ _ _) (λ _. Triple-pure _ (λ s h. h)))

  after_csrf-Leaves :
      (o : Option Bool) (body : Admin Page)
      → Triple Same body (λ _. Leaves) Leaves
      → Triple Same (after_csrf o body) (λ _. Leaves) Leaves
  after_csrf-Leaves none body t = Triple-raise _ Same-Leaves
  after_csrf-Leaves (some false) body t = Triple-pure _ Same-Leaves
  after_csrf-Leaves (some true) body t = t

  guarded-Leaves :
      (body : Admin Page)
      → Triple Same body (λ _. Leaves) Leaves
      → Triple Same (guarded q body) (λ _. Leaves) Leaves
  unfolding guarded
  guarded-Leaves body t =
      Triple-if q.session.authenticated _ _ (λ _. after_csrf-Leaves _ body t)
        (λ _. Triple-pure _ Same-Leaves)

  rescan-Leaves : Triple Same (rescan q id) (λ _. Leaves) Leaves
  unfolding rescan
  rescan-Leaves = guarded-Leaves _ (Triple-bind _ _ get_scan-Same rescan_row-Leaves)

-- A re-scan never changes a row of the table of scans: whatever fails on its way, the table is as it was, or one new row stands behind the others, a scan that was just received and has no verdict, of the same file and user, from the same client and source and with the same profile and way of transfer as the original, with the original's current hashes and MIME type, that names the original as its parent.
pub rescan-Rescanned :
    (q : Request) (id : String) (s : Panel)
    → Rescanned q id s.world.scans (rescan q id s).1.world.scans
rescan-Rescanned q id s =
    Keeps-Post (Leaves q id s.world.scans) _ _ ((rescan-Leaves q id s.world.scans).run s refl)
