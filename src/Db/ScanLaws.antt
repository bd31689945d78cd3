-- ===== src/Db/ScanLaws.antt =====
-- What an update of `scans` does to the row with its id and to the others, and the invariants that
-- the calls of api/db.py keep.
use safe_cloud.Prelude.{
  String, List, [], ◌∷◌, Bool, true, false, ◌≡◌, ◌≢◌, ◌⊎◌, inl, inr, refl, ◌∙◌, All, ◌==◌, eq_iff,
  arith, if◌then◌else◌, is_empty,
}
use safe_cloud.Exec.{ok, pure, raise, modify, gets}
use safe_cloud.Exec.Triple.{
  Triple, Triple_of_Keeps, Keeps, Keeps-bind, Keeps-gets, Triple-bind, Triple-modify,
}
use safe_cloud.Db.Rows.{Scan, ScanResult, World, connect, query, execute}
use safe_cloud.Db.Scans.{Assignment, assign, assign_all, has_unknown, update_rows, update_scan}

-- Every row of the scan `id` has the property; the key is unique, so there is one at most.
abbrev pub Row : String → (Scan → Type 0) → World → Type 0
Row id P w = All (λ r. r.id ≡ id → P r) w.scans

pub update_rows-All :
    (id : String) (f : Scan → Scan) (P Q : Scan → Type 0) (rs : List Scan)
    → ((r : Scan) → r.id ≡ id → P r → Q (f r))
    → ((r : Scan) → r.id ≢ id → P r → Q r)
    → All P rs
    → All Q (update_rows id f rs)
unfolding update_rows
update_rows-All id f P Q [] g k h = tt
update_rows-All id f P Q (r ∷ rs) g k (p, h) = (here, update_rows-All id f P Q rs g k h)
  where
    split : (b : Bool) → (r.id == id) ≡ b → Q (if b then f r else r)
    split true e = g r ((eq_iff _ _).0 e) p
    split false e = k r (λ q. ground (arith, eq_iff r.id id)) p

    here : Q (if r.id == id then f r else r)
    here = split (r.id == id) refl

-- The rows with the id are changed by `f`, and no other row is; none comes or goes.
abbrev pub OnlyAt : String → (Scan → Scan) → List Scan → List Scan → Type 0
OnlyAt id f [] [] = Unit
OnlyAt id f (r ∷ rs) (s ∷ ss) =
    (((r.id ≡ id) × (s ≡ f r)) ⊎ ((r.id ≢ id) × (s ≡ r))) × OnlyAt id f rs ss
OnlyAt id f _ _ = ⊥

pub update_rows-OnlyAt :
    (id : String) (f : Scan → Scan) (rs : List Scan) → OnlyAt id f rs (update_rows id f rs)
unfolding update_rows
update_rows-OnlyAt id f [] = tt
update_rows-OnlyAt id f (r ∷ rs) = (split (r.id == id) refl, update_rows-OnlyAt id f rs)
  where
    split :
        (b : Bool)
        → (r.id == id) ≡ b
        → ((r.id ≡ id) × ((if b then f r else r) ≡ f r))
          ⊎ ((r.id ≢ id) × ((if b then f r else r) ≡ r))
    split true e = inl ((eq_iff _ _).0 e, refl)
    split false e = inr ((λ q. ground (arith, eq_iff r.id id)), refl)

id-assign : (a : Assignment) (r : Scan) → (assign a r).id ≡ r.id
unfolding assign
id-assign (Assignment.set_status v) r = refl
id-assign _ r = refl

pub id-assign_all : (fields : List Assignment) (r : Scan) → (assign_all fields r).id ≡ r.id
unfolding assign_all
id-assign_all [] r = refl
id-assign_all (a ∷ fields) r = id-assign_all fields (assign a r) ∙ id-assign a r

-- Where no call of the database fails a connection changes nothing.
pub connect_calm : (w : World) → w.faults ≡ [] → connect w ≡ (ok tt, w)
unfolding connect pure
connect_calm w calm = simp (connect, calm) refl

-- `P` speaks of the tables of scans and of results alone.
pub Keeps-connect :
    (P : List Scan → List ScanResult → Type 0) → Keeps (λ w. P w.scans w.results) connect
unfolding connect pure raise
Keeps-connect P = record { run = λ w h. go w w.faults refl h }
  where
    go :
        (w : World) (fs : List Bool)
        → w.faults ≡ fs
        → P w.scans w.results
        → P (connect w).1.scans (connect w).1.results
    go w [] e h = rw (e, connect) h
    go w (true ∷ fs) e h = rw (e, connect) h
    go w (false ∷ fs) e h = rw (e, connect) h

module _ (P : List Scan → List ScanResult → Type 0) where
  pub Keeps-query : {A : Type 0} (f : World → A) → Keeps (λ w. P w.scans w.results) (query f)
  unfolding query
  Keeps-query f = Keeps-bind connect (λ _. gets f) (Keeps-connect P) (λ _. Keeps-gets f)

  pub Triple-execute :
      (Q : List Scan → List ScanResult → Type 0) (f : World → World)
      → ((w : World) → P w.scans w.results → Q (f w).scans (f w).results)
      → Triple
          (λ w. P w.scans w.results)
          (execute f)
          (λ _ w. Q w.scans w.results)
          (λ w. P w.scans w.results)
  unfolding execute
  Triple-execute Q f g =
      Triple-bind connect (λ _. modify f) (Triple_of_Keeps (Keeps-connect P))
        (λ _. Triple-modify f g)

-- An update turns a property of the row into another; an exception leaves the first.
pub Triple-update_scan :
    (id : String) (fields : List Assignment) (P Q : List ScanResult → Scan → Type 0)
    → has_unknown fields ≡ false
    → is_empty fields ≡ false
    → ((rs : List ScanResult) (r : Scan) → P rs r → Q rs (assign_all fields r))
    → Triple
        (λ w. Row id (P w.results) w)
        (update_scan id fields)
        (λ _ w. Row id (Q w.results) w)
        (λ w. Row id (P w.results) w)
unfolding update_scan
Triple-update_scan id fields P Q known some_field step =
    rw (known, some_field)
      (Triple-execute (λ s rs. All (λ r. r.id ≡ id → P rs r) s)
        (λ s rs. All (λ r. r.id ≡ id → Q rs r) s) _
        (λ w h.
          update_rows-All id (assign_all fields) _ _ w.scans (λ r e p q. step w.results r (p e))
            (λ r e p q. absurd (e q)) h))
