-- ===== src/Finish/Calm.antt =====
-- States in which no call of the database fails, and rows with a final status.
use safe_cloud.Prelude.{String, List, [], ◌∷◌, Bool, true, false, ◌≡◌, refl, All, arith, is_empty}
use safe_cloud.Policy.{ScanStatus, clean, infected, error, encrypted, cleanup_failed}
use safe_cloud.Exec.{pure}
use safe_cloud.Exec.Triple.{Triple, Triple-weaken, Triple-bind, Triple-modify, Keeps, Triple-Keeps}
use safe_cloud.Db.{
  Scan, World, Assignment, assign, assign_all, has_unknown, update_scan, connect, execute,
}
use safe_cloud.Db.ScanLaws.{Row, update_rows-All}
use safe_cloud.Frame.{update_scan-Keeps}
use safe_cloud.Tolerance.Writes.{is_late, all_late, all_known, Tolerates}

-- CLEAN, INFECTED, ERROR, ENCRYPTED or CLEANUP_FAILED: the statuses that a waiting client takes for the end.
abbrev pub is_terminal : ScanStatus → Bool
is_terminal clean = true
is_terminal infected = true
is_terminal error = true
is_terminal encrypted = true
is_terminal cleanup_failed = true
is_terminal _ = false

abbrev pub IsTerminal : Scan → Type 0
IsTerminal r = is_terminal r.status ≡ true

abbrev pub Calm : World → Type 0
Calm w = w.faults ≡ []

abbrev pub Done : String → World → Type 0
Done id w = Calm w × Row id IsTerminal w

connect-Calm :
    (P : World → Type 0) → ((w : World) → P w → Calm w) → Triple P connect (λ _. P) (λ _. ⊥)
unfolding connect pure
connect-Calm P calm = record { run = λ w h. rw (calm w h, connect) h }

connect-Keeps : (P : World → Type 0) → ((w : World) → P w → Calm w) → Keeps P connect
connect-Keeps P calm =
    Triple-Keeps (Triple-weaken (λ w h. h) (λ a w h. h) (λ w h. absurd h) (connect-Calm P calm))

-- In a calm state an update that ends in a final status does not raise, and the row has the status.
pub update_scan-Done :
    (id : String) (fields : List Assignment)
    → has_unknown fields ≡ false
    → is_empty fields ≡ false
    → ((r : Scan) → IsTerminal (assign_all fields r))
    → Triple Calm (update_scan id fields) (λ _. Done id) (λ _. ⊥)
unfolding update_scan execute
update_scan-Done id fields known some_field ends =
    rw (known, some_field)
      (Triple-bind _ _ (connect-Calm Calm (λ w h. h)) (λ _. Triple-modify _ (λ w h. (
        h,
        update_rows-All id (assign_all fields) (λ r. Unit) _ w.scans (λ r e p q. ends r)
            (λ r n p q. absurd (n q)) (all_rows w.scans),
      ))))
  where
    all_rows : (rs : List Scan) → All (λ r. Unit) rs
    all_rows [] = tt
    all_rows (r ∷ rs) = (tt, all_rows rs)

pub Calm-tolerant : (id : String) → Tolerates all_known id Calm
Calm-tolerant id = record {
  update = λ fields s e. update_scan-Keeps id fields (connect-Keeps Calm (λ w h. h)) (λ w h. h);
  connects = connect-Keeps Calm (λ w h. h);
  outside = λ w ps rs h. h;
}

assign-IsTerminal :
    (a : Assignment) (r : Scan) → is_late a ≡ true → IsTerminal r → IsTerminal (assign a r)
unfolding is_late assign
assign-IsTerminal (Assignment.set_status cleanup_failed) r s h = refl
assign-IsTerminal (Assignment.set_status _) r s h = cc
assign-IsTerminal (Assignment.set_allowed v) r s h = cc
assign-IsTerminal _ r s h = h

assign_all-IsTerminal :
    (fields : List Assignment) (r : Scan)
    → all_late fields ≡ true
    → IsTerminal r
    → IsTerminal (assign_all fields r)
unfolding all_late assign_all
assign_all-IsTerminal [] r s h = h
assign_all-IsTerminal (a ∷ fields) r s h =
    assign_all-IsTerminal fields (assign a r) (ground arith)
      (assign-IsTerminal a r (ground arith) h)

-- What is written after a verdict leaves the status final.
pub Done-tolerant : (id : String) → Tolerates all_late id (Done id)
Done-tolerant id = record {
  update = λ fields s e. update_scan-Keeps id fields (connect-Keeps (Done id) (λ w h. h.0)) (λ w h.
      (
        h.0,
        update_rows-All id (assign_all fields) _ _ w.scans
            (λ r f p q. assign_all-IsTerminal fields r s (p f)) (λ r n p q. absurd (n q)) (h.1),
      ));
  connects = connect-Keeps (Done id) (λ w h. h.0);
  outside = λ w ps rs h. h;
}
