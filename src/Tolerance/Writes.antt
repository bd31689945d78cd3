-- ===== src/Tolerance/Writes.antt =====
-- Kinds of writes to a scan's row, and the invariants that bear them.
use safe_cloud.Prelude.{
  String, List, [], ◌∷◌, Bool, true, false, not, ◌&&◌, ◌≡◌, refl, All, arith, is_empty,
}
use safe_cloud.Policy.{received, clean, cleanup_failed}
use safe_cloud.Exec.Triple.{Keeps, Triple-Keeps, Keeps-bind, Keeps-gets}
use safe_cloud.Db.{
  Scan, ScanResult, World, PlaybookRun, Assignment, assign, assign_all, has_unknown, is_unknown,
  update_scan, query, connect,
}
use safe_cloud.Db.ScanLaws.{Row, Keeps-connect, Triple-update_scan}

-- The write leaves alone what a verdict rests on, or it denies the file; it calls it neither
-- clean nor received.
unfoldable pub is_safe : Assignment → Bool
is_safe (Assignment.set_allowed v) = not v
is_safe (Assignment.set_status clean) = false
is_safe (Assignment.set_status received) = false
is_safe (Assignment.set_sha256 v) = false
is_safe (Assignment.set_encrypted_policy_applied v) = false
is_safe (Assignment.set_aggregation_policy_applied v) = false
is_safe (Assignment.set_unknown v) = false
is_safe _ = true

unfoldable pub all_safe : List Assignment → Bool
unfolding is_safe
all_safe [] = true
all_safe (a ∷ fields) = is_safe a && all_safe fields

pub has_unknown_of_all_safe :
    (fields : List Assignment) → all_safe fields ≡ true → has_unknown fields ≡ false
unfolding all_safe has_unknown is_unknown
has_unknown_of_all_safe [] s = refl
has_unknown_of_all_safe (Assignment.set_unknown v ∷ fields) s = cc
has_unknown_of_all_safe (a ∷ fields) s = ground (arith, has_unknown_of_all_safe fields)

-- The writes that may follow a verdict: the clean-up's status, the quarantine's path,
-- CLEANUP_FAILED, and what went wrong with the source's deletion.
unfoldable pub is_late : Assignment → Bool
is_late (Assignment.set_cleanup_status v) = true
is_late (Assignment.set_staging_path v) = true
is_late (Assignment.set_error_message v) = true
is_late (Assignment.set_status cleanup_failed) = true
is_late _ = false

unfoldable pub all_late : List Assignment → Bool
unfolding is_late
all_late [] = true
all_late (a ∷ fields) = is_late a && all_late fields

pub all_safe_of_all_late :
    (fields : List Assignment) → all_late fields ≡ true → all_safe fields ≡ true
unfolding all_safe all_late
all_safe_of_all_late [] s = refl
all_safe_of_all_late (Assignment.set_cleanup_status v ∷ fields) s = all_safe_of_all_late fields s
all_safe_of_all_late (Assignment.set_staging_path v ∷ fields) s = all_safe_of_all_late fields s
all_safe_of_all_late (Assignment.set_error_message v ∷ fields) s = all_safe_of_all_late fields s
all_safe_of_all_late (Assignment.set_status cleanup_failed ∷ fields) s =
    all_safe_of_all_late fields s
all_safe_of_all_late (Assignment.set_status _ ∷ fields) s = cc
all_safe_of_all_late (_ ∷ fields) s = cc

abbrev pub all_known : List Assignment → Bool
all_known fields = not (has_unknown fields)

-- The write names a column and does not put the scan back in the queue.
unfoldable pub is_forward : Assignment → Bool
is_forward (Assignment.set_status received) = false
is_forward (Assignment.set_unknown v) = false
is_forward _ = true

unfoldable pub all_forward : List Assignment → Bool
unfolding is_forward
all_forward [] = true
all_forward (a ∷ fields) = is_forward a && all_forward fields

all_forward_of_all_safe :
    (fields : List Assignment) → all_safe fields ≡ true → all_forward fields ≡ true
unfolding all_safe all_forward
all_forward_of_all_safe [] s = refl
all_forward_of_all_safe (Assignment.set_status received ∷ fields) s = cc
all_forward_of_all_safe (Assignment.set_unknown v ∷ fields) s = cc
all_forward_of_all_safe (a ∷ fields) s = ground (arith, all_forward_of_all_safe fields)

has_unknown_of_all_forward :
    (fields : List Assignment) → all_forward fields ≡ true → has_unknown fields ≡ false
unfolding all_forward has_unknown is_unknown
has_unknown_of_all_forward [] s = refl
has_unknown_of_all_forward (Assignment.set_unknown v ∷ fields) s = cc
has_unknown_of_all_forward (a ∷ fields) s = ground (arith, has_unknown_of_all_forward fields)

-- `Inv` bears the writes of one kind to the scan `id`, reads, and changes of the paths and the trace.
pub record Tolerates (kind : List Assignment → Bool) (id : String) (Inv : World → Type 0)
    : Type 0 where
  pub update :
      (fields : List Assignment)
      → kind fields ≡ true
      → is_empty fields ≡ false
      → Keeps Inv (update_scan id fields)
  pub connects : Keeps Inv connect
  pub outside :
      (w : World) (paths : List String) (runs : List PlaybookRun)
      → Inv w
      → Inv (record w { paths = paths; runs = runs })

pub query-Keeps :
    {Inv : World → Type 0} {A : Type 0} (f : World → A) → Keeps Inv connect → Keeps Inv (query f)
unfolding query
query-Keeps f k = Keeps-bind _ _ k (λ _. Keeps-gets f)

module _ {id : String} {Inv : World → Type 0} where
  pub late_of_safe : Tolerates all_safe id Inv → Tolerates all_late id Inv
  late_of_safe t = record {
    update = λ fields s. t.update fields (all_safe_of_all_late fields s);
    connects = t.connects;
    outside = t.outside;
  }

  pub forward_of_known : Tolerates all_known id Inv → Tolerates all_forward id Inv
  forward_of_known t = record {
    update = λ fields s. t.update fields (rw (has_unknown_of_all_forward fields s) refl);
    connects = t.connects;
    outside = t.outside;
  }

  pub safe_of_forward : Tolerates all_forward id Inv → Tolerates all_safe id Inv
  safe_of_forward t = record {
    update = λ fields s. t.update fields (all_forward_of_all_safe fields s);
    connects = t.connects;
    outside = t.outside;
  }

  pub safe_of_known : Tolerates all_known id Inv → Tolerates all_safe id Inv
  safe_of_known t = safe_of_forward (forward_of_known t)

-- The invariants on the scan's own row that each single write of the kind keeps.
module _ (id : String) (P : List ScanResult → Scan → Type 0)
    (stable : (a : Assignment) (rs : List ScanResult) (r : Scan)
      → is_safe a ≡ true
      → P rs r
      → P rs (assign a r)) where
  assign_all-stable :
      (fields : List Assignment) (rs : List ScanResult) (r : Scan)
      → all_safe fields ≡ true
      → P rs r
      → P rs (assign_all fields r)
  unfolding assign_all all_safe
  assign_all-stable [] rs r s h = h
  assign_all-stable (a ∷ fields) rs r s h =
      assign_all-stable fields rs (assign a r) (ground arith) (stable a rs r (ground arith) h)

  update-Keeps :
      (fields : List Assignment)
      → all_safe fields ≡ true
      → is_empty fields ≡ false
      → Keeps (λ w. Row id (P w.results) w) (update_scan id fields)
  update-Keeps fields s e = Triple-Keeps (
      Triple-update_scan id fields P P (has_unknown_of_all_safe fields s) e
        (λ rs r h. assign_all-stable fields rs r s h))

  pub Row-Tolerates : Tolerates all_safe id (λ w. Row id (P w.results) w)
  Row-Tolerates = record {
    update = update-Keeps;
    connects = Keeps-connect (λ s rs. All (λ r. r.id ≡ id → P rs r) s);
    outside = λ w ps rs h. h;
  }
