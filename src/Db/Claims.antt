-- ===== src/Db/Claims.antt =====
-- The claims of `claim_next_scan`.
use mathlib.Core.Option.{some-injective}
use safe_cloud.Prelude.{
  ℕ, List, [], ◌∷◌, Option, none, some, Bool, Bool-cases, true, false, inl, inr, ◌≡◌, ◌⊎◌, ◌≤◌,
  refl, sym, subst, arith, All, Any, ltb,
}
use safe_cloud.Policy.{ScanStatus, received, validating}
use safe_cloud.Exec.{ok, pure, raise, modify, gets, ◌>>=◌}
use safe_cloud.Db.Rows.{Scan, World, connect}
use safe_cloud.Db.ScanLaws.{OnlyAt, update_rows-OnlyAt}
use safe_cloud.Db.Scans.{
  is_received, oldest_received, claim_row, claim_next_scan, update_rows, claim_in, claimed,
}

abbrev NotLater : Option Scan → Scan → Type 0
NotLater none r = Unit
NotLater (some b) r = r.created_at ≤ b.created_at

-- A waiting row is not older.
abbrev pub IsFirst : Scan → Scan → Type 0
IsFirst r q = q.status ≡ received → r.created_at ≤ q.created_at

not_waiting : (q : Scan) → q.status ≡ received → is_received q.status ≡ false → ⊥
not_waiting q s e = cc

oldest-IsFirst :
    (best : Option Scan) (rows : List Scan) (r : Scan)
    → oldest_received best rows ≡ some r
    → NotLater best r × All (IsFirst r) rows
unfolding oldest_received
oldest-IsFirst none [] r h = cc
oldest-IsFirst (some b) [] r h = (ground arith, tt)
oldest-IsFirst none (q ∷ rows) r h = elim (Bool-cases (is_received q.status)) [
  | inl e ↦ let (m, a) = oldest-IsFirst (some q) rows r (ground arith) in (tt, ((λ s. m), a))
  | inr e ↦
      let (m, a) = oldest-IsFirst none rows r (ground arith) in
      (tt, ((λ s. absurd (not_waiting q s e)), a))
]
oldest-IsFirst (some b) (q ∷ rows) r h = elim (Bool-cases (is_received q.status)) [
  | inl e ↦ elim (Bool-cases (ltb q.created_at b.created_at)) [
    | inl less ↦
        let (m, a) = oldest-IsFirst (some q) rows r (ground arith) in (ground arith, ((λ s. m), a))
    | inr more ↦
        let (m, a) = oldest-IsFirst (some b) rows r (ground arith) in (m, ((λ s. ground arith), a))
  ]
  | inr e ↦
      let (m, a) = oldest-IsFirst (some b) rows r (ground arith) in
      (m, ((λ s. absurd (not_waiting q s e)), a))
]

-- A row of the list, in status RECEIVED.
abbrev pub IsWaiting : Scan → Scan → Type 0
IsWaiting r q = (q ≡ r) × (q.status ≡ received)

waiting : (s : ScanStatus) → is_received s ≡ true → s ≡ received
waiting received e = refl
waiting _ e = cc

found_in :
    (best : Option Scan) (q : Scan) (rows : List Scan) (r : Scan)
    → is_received q.status ≡ true
    → (◌≡◌ {A = Option Scan} (some q) (some r)) ⊎ Any (IsWaiting r) rows
    → (best ≡ some r) ⊎ Any (IsWaiting r) (q ∷ rows)
found_in best q rows r e (inl s) = inr (inl (some-injective _ _ s, waiting q.status e))
found_in best q rows r e (inr a) = inr (inr a)

oldest-IsWaiting :
    (best : Option Scan) (rows : List Scan) (r : Scan)
    → oldest_received best rows ≡ some r
    → (best ≡ some r) ⊎ Any (IsWaiting r) rows
unfolding oldest_received
oldest-IsWaiting best [] r h = inl h
oldest-IsWaiting none (q ∷ rows) r h = elim (Bool-cases (is_received q.status)) [
  | inl e ↦ found_in _ q rows r e (oldest-IsWaiting (some q) rows r (ground arith))
  | inr e ↦ elim (oldest-IsWaiting none rows r (ground arith)) [
    | inl b ↦ inl b
    | inr a ↦ inr (inr a)
  ]
]
oldest-IsWaiting (some b) (q ∷ rows) r h = elim (Bool-cases (is_received q.status)) [
  | inl e ↦ elim (Bool-cases (ltb q.created_at b.created_at)) [
    | inl less ↦ found_in _ q rows r e (oldest-IsWaiting (some q) rows r (ground arith))
    | inr more ↦ elim (oldest-IsWaiting (some b) rows r (ground arith)) [
      | inl b ↦ inl b
      | inr a ↦ inr (inr a)
    ]
  ]
  | inr e ↦ elim (oldest-IsWaiting (some b) rows r (ground arith)) [
    | inl b ↦ inl b
    | inr a ↦ inr (inr a)
  ]
]

-- What the row of a claim and the rows after it are.
abbrev pub IsClaim : World → Scan → List Scan → Type 0
IsClaim w r after =
    (q : Scan) × (r ≡ claim_row w.clock q)
    × Any (IsWaiting q) w.scans
    × All (IsFirst q) w.scans
    × (after ≡ update_rows q.id (claim_row w.clock) w.scans)

claimed-IsClaim :
    (w : World) (found : Option Scan) (r : Scan)
    → oldest_received none w.scans ≡ found
    → claimed w found ≡ some r
    → IsClaim w r (claim_in w found).scans
claimed-IsClaim w none r e h = cc
claimed-IsClaim w (some q) r e h = (
  q,
  sym (some-injective _ _ h),
  present (oldest-IsWaiting none w.scans q e),
  (oldest-IsFirst none w.scans q e).1,
  refl,
)
  where
    present :
        (◌≡◌ {A = Option Scan} none (some q)) ⊎ Any (IsWaiting q) w.scans
        → Any (IsWaiting q) w.scans
    present (inl n) = cc
    present (inr a) = a

pub claim_next_scan-IsClaim :
    (w : World) (r : Scan)
    → (claim_next_scan w).0 ≡ ok (some r)
    → IsClaim w r (claim_next_scan w).1.scans
unfolding claim_next_scan ◌>>=◌ connect pure raise gets modify
claim_next_scan-IsClaim w r h = go w.faults refl h
  where
    ok-injective : (a : Option Scan) → ok a ≡ ok (some r) → a ≡ some r
    ok-injective none e = cc
    ok-injective (some q) e = cc

    go :
        (fs : List Bool)
        → w.faults ≡ fs
        → (claim_next_scan w).0 ≡ ok (some r)
        → IsClaim w r (claim_next_scan w).1.scans
    go [] e = rw (e, connect) (λ h. claimed-IsClaim w _ r refl (ok-injective _ h))
    go (true ∷ fs) e = rw (e, connect) (λ h. cc)
    go (false ∷ fs) e =
        rw (e, connect)
          (λ h. claimed-IsClaim (record w { faults = fs }) _ r refl (ok-injective _ h))

-- A row in status VALIDATING, started at the time.
abbrev pub started : ℕ → Scan → Scan
started now q = record q { status = validating; started_at = some now }

-- A claim that returns a row has taken a row that was RECEIVED and that no other RECEIVED row is older than; the row it returns is that one, in status VALIDATING and started now, and so it is in the table, where no row with another id has changed and none has come or gone.
pub claim_next_scan-IsFirst :
    (w : World) (r : Scan)
    → (claim_next_scan w).0 ≡ ok (some r)
    → (q : Scan) × Any (IsWaiting q) w.scans
      × All (IsFirst q) w.scans
      × (r ≡ started w.clock q)
      × OnlyAt q.id (started w.clock) w.scans (claim_next_scan w).1.scans
unfolding claim_row
claim_next_scan-IsFirst w r h =
    let (q, e, there, first, after) = claim_next_scan-IsClaim w r h in
    (
      q,
      there,
      first,
      e,
      subst (OnlyAt q.id (started w.clock) w.scans) (sym after) (update_rows-OnlyAt q.id _ w.scans),
    )
