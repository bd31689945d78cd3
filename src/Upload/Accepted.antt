-- ===== src/Upload/Accepted.antt =====
-- When an upload adds a row, and which.
use safe_cloud.Prelude.{true, ◌≡◌, ◌≢◌, ◌⊎◌, contains, strip}
use safe_cloud.Exec.Triple.{Triple}
use safe_cloud.Db.{Db}
use safe_cloud.Api.{Server}
use safe_cloud.Upload.Handler.{UploadCall, UploadEnv, UploadAnswer, queued}
use safe_cloud.Upload.Stored.{IsAdded, IsStored}
use safe_cloud.Upload.Outcomes.{Start, Broken}

-- What an answer says of the table: a queued upload is permitted, names a user, and has stored its row;
-- every other answer has added none.
abbrev pub Uploaded : UploadEnv → UploadCall → Server → UploadAnswer → Server → Type 0
Uploaded up call s (queued id) t =
    (contains "scan.upload" call.client.permissions ≡ true)
    × (strip call.username ≢ "")
    × (id ≡ call.row_id)
    × IsStored up call s.world t.world
Uploaded up call s _ t = t.world.scans ≡ s.world.scans

module _ (up : UploadEnv) (call : UploadCall) (s : Server) where
  abbrev Begun : Server → Type 0
  Begun t = Start up call s.world.scans s.world.profiles t.world

  abbrev Halted : Server → Type 0
  Halted t = Broken up call s.world.scans s.world.profiles t.world

-- Where an upload ends in an exception.
abbrev pub Stopped : UploadEnv → UploadCall → Server → Server → Type 0
Stopped up call s t = (t.world.scans ≡ s.world.scans) ⊎ IsAdded up call s.world t.world
