-- ===== src/Upload/Outcomes.antt =====
-- The calls of an upload against the table of scans: no row, or the row that its bytes make.
use safe_cloud.Prelude.{
  ℕ, String, List, [], ◌∷◌, ◌++◌, Option, none, some, Bool, true, false, inl, inr, ◌==◌, ◌≡◌, ◌⊎◌,
  refl, sym, ap, subst, ◌∙◌, eq_iff, text_or, extension_of, ◌+++◌,
}
use safe_cloud.Exec.{pure, raise, ◌>>=◌, ◌>>◌}
use safe_cloud.Exec.Triple.{
  Triple, Triple_of_Keeps, Triple-weaken, Triple-bind, Triple-if, Triple-pure, Triple-raise,
  Triple-gets, Triple-modify, Triple-try_except, Keeps,
}
use safe_cloud.Db.{
  ScanInfo, Scan, Profile, World, connect, query, execute, create_scan, new_scan, update_scan,
  update_rows, assign_all, set_staging_path, get_profile, find_profile, has_unknown, is_unknown,
}
use safe_cloud.Upload.{
  Streamed, too_large, empty, staged, stream_upload_to_staging, ProfileChoice, chosen, restricted,
  unknown_or_disabled, resolve_profile_for_client, Objection, check_file_type_policy,
}
use safe_cloud.Upload.Handler.{
  UploadCall, UploadEnv, UploadAnswer, failed, objected, queued, filename_of, tmp_dir, tmp_path,
  remove_tmp, max_size, mime_of, info_of_upload, scan_dir, place, finalize_staged_upload,
  create_row, finish_upload, store_upload, after_stream, receive, with_choice, accept_upload,
}
use safe_cloud.Upload.Choice.{
  IsGranted, some_text, IsChoice, check_pinned-IsChoice, check_requested-IsChoice,
}

-- The upload may be taken: permission, name, profile, size and type, and the row that is made of it.
abbrev pub IsAccepted : UploadEnv → UploadCall → List Profile → ScanInfo → Type 0
IsAccepted up call profiles info =
    (bytes : List ℕ) × (profile_id : Option String) × (info
      ≡ info_of_upload up call profile_id bytes)
    × (stream_upload_to_staging (max_size up) call.chunks ≡ staged bytes)
    × (check_file_type_policy up.settings (extension_of (filename_of call)) (mime_of up call bytes)
        ≡ none)
    × IsGranted call profiles profile_id

module _ (up : UploadEnv) (call : UploadCall) (before : List Scan) (profiles : List Profile) where
  abbrev pub Start : World → Type 0
  Start w = (w.scans ≡ before) × (w.profiles ≡ profiles)

  -- The new row stands behind the others.
  abbrev pub AddedTo : List Scan → Type 0
  AddedTo rows =
      (info : ScanInfo) × (now : ℕ) × IsAccepted up call profiles info
      × (rows ≡ before ++ new_scan call.row_id info now ∷ [])

  abbrev pub Added : World → Type 0
  Added w = AddedTo w.scans

  abbrev pub Placed : World → Type 0
  Placed w =
      (info : ScanInfo) × (now : ℕ) × IsAccepted up call profiles info
      × (w.scans
          ≡ update_rows call.row_id (assign_all (set_staging_path (scan_dir up call.row_id) ∷ []))
              (before ++ new_scan call.row_id info now ∷ []))

  abbrev pub Outcome : UploadAnswer → World → Type 0
  Outcome (queued id) w = (id ≡ call.row_id) × Placed w
  Outcome _ w = w.scans ≡ before

  abbrev pub Broken : World → Type 0
  Broken w = (w.scans ≡ before) ⊎ Added w

  connect-tables :
      (P : List Scan → List Profile → Type 0) → Keeps (λ w. P w.scans w.profiles) connect
  unfolding connect pure raise
  connect-tables P = record { run = λ w h. go w w.faults refl h }
    where
      go :
          (w : World) (fs : List Bool)
          → w.faults ≡ fs
          → P w.scans w.profiles
          → P (connect w).1.scans (connect w).1.profiles
      go w [] e h = rw (e, connect) h
      go w (true ∷ fs) e h = rw (e, connect) h
      go w (false ∷ fs) e h = rw (e, connect) h

  pub connect-Start : Triple Start connect (λ _. Start) Broken
  connect-Start =
      Triple-weaken (λ w h. h) (λ a w h. h) (λ w h. inl h.0)
        (Triple_of_Keeps (connect-tables (λ s p. (s ≡ before) × (p ≡ profiles))))

  -- What changes the paths alone.
  remove_tmp-same :
      (P : List Scan → Type 0) (E : World → Type 0)
      → ((w : World) → P w.scans → E w)
      → Triple (λ w. P w.scans) (remove_tmp up call) (λ _ w. P w.scans) E
  unfolding remove_tmp
  remove_tmp-same P E f =
      Triple-if (up.env.rmtree_ok (tmp_dir up call)) _ _
        (λ _. Triple-modify {P = λ w. P w.scans} {Q = λ _ w. P w.scans} _ (λ w h. h))
        (λ _. Triple-pure {P = λ w. P w.scans} {Q = λ _ w. P w.scans} tt (λ w h. h))

  update-Placed :
      (scan_id : String)
      → scan_id ≡ call.row_id
      → Triple Added
          (update_scan scan_id (set_staging_path (scan_dir up scan_id) ∷ []))
          (λ _. Placed)
          Broken
  unfolding update_scan execute has_unknown is_unknown
  update-Placed scan_id e =
      subst
        (λ id.
          Triple Added (update_scan id (set_staging_path (scan_dir up id) ∷ [])) (λ _. Placed)
            Broken)
        (sym e)
        (Triple-bind {Q = λ _. Added} _ _
          (Triple-weaken (λ w h. h) (λ a w h. h) (λ w h. inr h)
            (Triple_of_Keeps (connect-tables (λ s p. AddedTo s))))
          (λ _. Triple-modify _ (λ w (info, now, accepted, rows). (
            info,
            now,
            accepted,
            ap
                (update_rows call.row_id
                  (assign_all (set_staging_path (scan_dir up call.row_id) ∷ [])))
                rows,
          ))))

  place-Placed :
      (scan_id : String)
      → scan_id ≡ call.row_id
      → Triple Added (place up scan_id call) (λ _. Placed) Broken
  unfolding place
  place-Placed scan_id e =
      Triple-if (up.env.move_ok (tmp_path up call)) _ _
        (λ _.
          Triple-bind {Q = λ _. Added} _ _
            (Triple-bind {Q = λ _. Added} _ _ (Triple-modify _ (λ w h. h))
              (λ _. remove_tmp-same AddedTo Broken (λ w h. inr h)))
            (λ _. update-Placed scan_id e))
        (λ _. Triple-raise _ (λ w h. inr h))

  finalize-Placed :
      (scan_id : String)
      → scan_id ≡ call.row_id
      → Triple Added (finalize_staged_upload up scan_id call) (λ _. Placed) Broken
  unfolding finalize_staged_upload
  finalize-Placed scan_id e =
      Triple-if (up.env.mkdir_ok (scan_dir up scan_id +++ "/input")) _ _
        (λ _.
          Triple-bind {Q = λ _. Added} _ _ (Triple-modify _ (λ w h. h))
            (λ _. place-Placed scan_id e))
        (λ _. Triple-raise _ (λ w h. inr h))

  -- A row was added, or none and nothing has changed.
  abbrev Created : Option Scan → World → Type 0
  Created none w = w.scans ≡ before
  Created (some row) w = (row.id ≡ call.row_id) × Added w

  create_scan-Created :
      (info : ScanInfo)
      → IsAccepted up call profiles info
      → Triple Start
          (create_scan call.row_id info >>= λ row. pure (some row))
          Created
          (λ w. w.scans ≡ before)
  unfolding create_scan execute new_scan
  create_scan-Created info accepted =
      Triple-bind {Q = λ row w. (row.id ≡ call.row_id) × Added w} _ _
        (Triple-bind {Q = λ _. Start} _ _ (Triple-gets _ (λ w h. h)) (λ now.
          Triple-bind {Q = λ _ w. w.scans ≡ before ++ new_scan call.row_id info now ∷ []} _ _
            (Triple-bind {Q = λ _ w. w.scans ≡ before} _ _
              (Triple-weaken (λ w h. h.0) (λ a w h. h) (λ w h. h)
                (Triple_of_Keeps (connect-tables (λ s p. s ≡ before))))
              (λ _. Triple-modify _ (λ w h. ap (λ rs. rs ++ new_scan call.row_id info now ∷ []) h)))
            (λ _. Triple-pure _ (λ w h. (refl, (info, now, accepted, h))))))
        (λ row. Triple-pure (some row) (λ w h. h))

  create_row-Created :
      (info : ScanInfo)
      → IsAccepted up call profiles info
      → Triple Start (create_row up call info) Created Broken
  unfolding create_row
  create_row-Created info accepted = Triple-try_except _ _ (create_scan-Created info accepted) (λ x.
      Triple-bind {Q = λ _ w. w.scans ≡ before} _ _
        (remove_tmp-same (λ s. s ≡ before) Broken (λ w h. inl h))
        (λ _. Triple-pure none (λ w h. h)))

  finish_upload-Outcome :
      (found : Option Scan) → Triple (Created found) (finish_upload up call found) Outcome Broken
  unfolding finish_upload
  finish_upload-Outcome none = Triple-pure _ (λ w h. h)
  finish_upload-Outcome (some row) = record { run = λ w h. (go h.0).run w h.1 }
    where
      go : row.id ≡ call.row_id → Triple Added (finish_upload up call (some row)) Outcome Broken
      go e =
          Triple-bind {Q = λ _. Placed} _ _ (finalize-Placed row.id e)
            (λ _. Triple-pure (queued row.id) (λ w h. (e, h)))

  store_upload-Outcome :
      (profile_id : Option String) (bytes : List ℕ) (objection : Option Objection)
      → IsGranted call profiles profile_id
      → stream_upload_to_staging (max_size up) call.chunks ≡ staged bytes
      → check_file_type_policy up.settings (extension_of (filename_of call)) (mime_of up call bytes)
        ≡ objection
      → Triple Start (store_upload up call profile_id bytes objection) Outcome Broken
  unfolding store_upload
  store_upload-Outcome profile_id bytes (some objection) granted read e =
      Triple-bind {Q = λ _ w. w.scans ≡ before} _ _
        (Triple-weaken (λ w h. h.0) (λ a w h. h) (λ w h. h)
          (remove_tmp-same (λ s. s ≡ before) Broken (λ w h. inl h)))
        (λ _. Triple-pure (objected objection) (λ w h. h))
  store_upload-Outcome profile_id bytes none granted read e =
      Triple-bind {Q = Created} _ _
        (create_row-Created _ (bytes, profile_id, refl, read, e, granted)) finish_upload-Outcome

  refuse_stream :
      (code : ℕ) (message : String)
      → Triple Start (remove_tmp up call >> pure (failed code message)) Outcome Broken
  refuse_stream code message =
      Triple-bind {Q = λ _ w. w.scans ≡ before} _ _
        (Triple-weaken (λ w h. h.0) (λ a w h. h) (λ w h. h)
          (remove_tmp-same (λ s. s ≡ before) Broken (λ w h. inl h)))
        (λ _. Triple-pure (failed code message) (λ w h. h))

  after_stream-Outcome :
      (profile_id : Option String) (read : Streamed)
      → IsGranted call profiles profile_id
      → stream_upload_to_staging (max_size up) call.chunks ≡ read
      → Triple Start (after_stream up call profile_id read) Outcome Broken
  unfolding after_stream
  after_stream-Outcome profile_id too_large granted e = refuse_stream 413 _
  after_stream-Outcome profile_id empty granted e = refuse_stream 400 _
  after_stream-Outcome profile_id (staged bytes) granted e =
      store_upload-Outcome profile_id bytes _ granted e refl

  receive-Outcome :
      (profile_id : Option String)
      → IsGranted call profiles profile_id
      → Triple Start (receive up call profile_id) Outcome Broken
  unfolding receive
  receive-Outcome profile_id granted =
      Triple-if (up.env.mkdir_ok (tmp_dir up call)) _ _
        (λ _.
          Triple-bind {Q = λ _. Start} _ _ (Triple-modify _ (λ w h. h))
            (λ _. after_stream-Outcome profile_id _ granted refl))
        (λ _. Triple-raise _ (λ w h. inl h.0))

  with_choice-Outcome :
      (choice : ProfileChoice)
      → Triple
          (λ w. Start w × IsChoice call profiles choice)
          (with_choice up call choice)
          Outcome
          Broken
  unfolding with_choice
  with_choice-Outcome (chosen profile_id) = record {
    run = λ w h. (receive-Outcome profile_id h.1).run w h.0;
  }
  with_choice-Outcome (restricted c p r) = Triple-pure _ (λ w h. h.0.0)
  with_choice-Outcome (unknown_or_disabled r) = Triple-pure _ (λ w h. h.0.0)

  query-Start :
      {A : Type 0} (f : World → A) → Triple Start (query f) (λ a w. Start w × (a ≡ f w)) Broken
  unfolding query
  query-Start f =
      Triple-bind {Q = λ _. Start} _ _ connect-Start (λ _. Triple-gets _ (λ w h. (h, refl)))

  get_profile-Start : (id : String) → Triple Start (get_profile id) (λ a w. Start w) Broken
  unfolding get_profile
  get_profile-Start id = Triple-weaken (λ w h. h) (λ a w h. h.0) (λ w h. h) (query-Start _)

  resolve-IsChoice :
      Triple Start
        (resolve_profile_for_client call.client call.profile)
        (λ choice w. Start w × IsChoice call profiles choice)
        Broken
  unfolding resolve_profile_for_client
  resolve-IsChoice =
      Triple-if (text_or call.client.scanner_profile_id "" == "") _ _
        (λ unpinned.
          Triple-if (text_or call.profile "" == "") _ _
            (λ unasked.
              Triple-pure (chosen none)
                (λ w h. (h, inr (inr (refl, (eq_iff _ _).0 unpinned, (eq_iff _ _).0 unasked)))))
            (λ asked. Triple-bind _ _ (query-Start _) (λ found. Triple-pure _ (λ w h. (
              h.0,
              check_requested-IsChoice call profiles found
                  (ap (find_profile (λ p. p.slug == text_or call.profile "")) (sym h.0.1) ∙ sym h.1)
                  ((eq_iff _ _).0 unpinned),
            )))))
        (λ pinned.
          Triple-if (text_or call.profile "" == "") _ _
            (λ unasked. Triple-pure _ (λ w h. (h, inl (refl, some_text _ pinned))))
            (λ asked. Triple-bind _ _ (get_profile-Start _) (λ found. Triple-pure _ (λ w h.
              (h, check_pinned-IsChoice call profiles _ _ found refl (some_text _ pinned))))))

  pub accept_upload-Outcome : Triple Start (accept_upload up call) Outcome Broken
  unfolding accept_upload
  accept_upload-Outcome =
      Triple-bind {Q = λ _. Start} _ _ connect-Start
        (λ _. Triple-bind _ _ resolve-IsChoice with_choice-Outcome)
