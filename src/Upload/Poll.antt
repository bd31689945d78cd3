-- ===== src/Upload/Poll.antt =====
-- Waiting for a verdict: `_poll_until_terminal` over the reads of the row.
use safe_cloud.Prelude.{
  String, List, [], ◌∷◌, Option, none, some, Bool, true, false, inl, inr, ◌≡◌, ◌⊎◌, refl, Any,
  if◌then◌else◌,
}
use safe_cloud.Policy.{ScanStatus, error}
use safe_cloud.Db.{Scan}
use safe_cloud.Finish.Calm.{is_terminal, IsTerminal}

-- What the wait ends with: a row of the table, or the four fields that are made up for a row that is
-- missing.
pub data Polled : Type 0 where
  row_now : Scan → Polled
  made_up :
      (id : String) → (status : ScanStatus) → (allowed : Bool) → (error_message : String) → Polled

-- A read, and the reads that follow it until the deadline: behind the last one it has passed.
unfoldable pub poll_until_terminal : String → Option Scan → List (Option Scan) → Polled
poll_until_terminal scan_id none later = made_up scan_id error false "Scan disappeared"
poll_until_terminal scan_id (some row) [] = row_now row
poll_until_terminal scan_id (some row) (next ∷ later) =
    let waited = poll_until_terminal scan_id next later in
    if is_terminal row.status then row_now row else waited

-- The last read of the wait.
abbrev pub last_read : Option Scan → List (Option Scan) → Option Scan
last_read first [] = first
last_read first (next ∷ later) = last_read next later

-- What an answer of the wait says of the reads.
abbrev pub Waited : String → Option Scan → List (Option Scan) → Polled → Type 0
Waited scan_id first later (row_now row) =
    Any (λ r. r ≡ some row) (first ∷ later) × (IsTerminal row ⊎ (last_read first later ≡ some row))
Waited scan_id first later (made_up id status allowed error_message) =
    Any (λ r. r ≡ none) (first ∷ later)
    × (id ≡ scan_id)
    × (status ≡ error)
    × (allowed ≡ false)
    × (error_message ≡ "Scan disappeared")

Waited-some :
    (scan_id : String) (r : Scan) (next : Option Scan) (later : List (Option Scan)) (p : Polled)
    → Waited scan_id next later p
    → Waited scan_id (some r) (next ∷ later) p
Waited-some scan_id r next later (row_now row) (read, ends) = (inr read, ends)
Waited-some scan_id r next later (made_up id s a m) (missing, i, e, d, f) =
    (inr missing, i, e, d, f)

-- A wait answers with a row that was read, which has a final status or is that of the last read, when the deadline had passed; or, only where a read found no row, with a row that is made up for the id: an ERROR that is not allowed, with the message that the scan disappeared.
pub poll_until_terminal-Waited :
    (scan_id : String) (first : Option Scan) (later : List (Option Scan))
    → Waited scan_id first later (poll_until_terminal scan_id first later)
unfolding poll_until_terminal
poll_until_terminal-Waited scan_id none later = (inl refl, refl, refl, refl, refl)
poll_until_terminal-Waited scan_id (some r) [] = (inl refl, inr refl)
poll_until_terminal-Waited scan_id (some r) (next ∷ later) =
    go (is_terminal r.status) refl (poll_until_terminal-Waited scan_id next later)
  where
    go :
        (b : Bool)
        → is_terminal r.status ≡ b
        → Waited scan_id next later (poll_until_terminal scan_id next later)
        → Waited scan_id
            (some r)
            (next ∷ later)
            (if b then row_now r else poll_until_terminal scan_id next later)
    go true e h = (inl refl, inl e)
    go false e h = Waited-some scan_id r next later _ h
