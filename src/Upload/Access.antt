-- ===== src/Upload/Access.antt =====
-- Who may see a scan, and what an answer says of it.
use safe_cloud.Prelude.{
  Bool-cases, none, some, true, contains, ◌==◌, ◌≡◌, ◌⊎◌, ◌↔◌, inl, inr, arith, eq_iff,
}
use safe_cloud.Policy.{clean, encrypted}
use safe_cloud.Db.{Scan, World}
use safe_cloud.Upload.{Client, visible, id_text, owned, build_upload_response}

-- A client gets a row that exists exactly if it may read all scans or its id is that of the client that the row names; every other row is answered as a row that does not exist is.
pub owned-visible_iff :
    (client : Client) (r : Scan)
    → ((owned client (some r) ≡ visible r) ↔ (
        (contains "scan.read_all" client.permissions ≡ true)
        ⊎ (id_text r.info.api_client_id ≡ client.id)))
      × ((owned client (some r) ≡ visible r) ⊎ (owned client (some r) ≡ owned client none))
unfolding owned
owned-visible_iff client r = elim (Bool-cases (contains "scan.read_all" client.permissions)) [
  | inl all ↦ rw all (ground arith)
  | inr own ↦ elim (Bool-cases (id_text r.info.api_client_id == client.id)) [
    | inl same ↦ rw (own, same) (ground (arith, eq_iff (id_text r.info.api_client_id) client.id))
    | inr other ↦ rw (own, other) (ground (arith, eq_iff (id_text r.info.api_client_id) client.id))
  ]
]

-- The upload API answers that a file is allowed exactly if its row's status is CLEAN, or is ENCRYPTED and the row is allowed.
pub build_upload_response-allowed_iff :
    (w : World) (r : Scan)
    → ((build_upload_response w r).allowed ≡ some true)
      ↔ ((r.status ≡ clean) ⊎ ((r.status ≡ encrypted) × (r.allowed ≡ some true)))
unfolding build_upload_response
build_upload_response-allowed_iff w r = ground arith
