-- ===== src/Worker/Waiting.antt =====
-- How many rows wait for a worker, and what a claim and a job change of it.
use safe_cloud.Prelude.{
  ℕ, String, List, [], ◌∷◌, none, some, Bool, Bool-cases, true, false, inl, inr, ◌==◌, ◌+◌, ◌≤◌,
  ◌<◌, ◌≡◌, ◌≢◌, refl, ap, arith, eq_iff, All, Any, ltb, if◌then◌else◌,
}
use safe_cloud.Policy.{ScanStatus, received}
use safe_cloud.Db.{Scan, is_received, update_rows, claim_row, oldest_received}
use safe_cloud.Db.Claims.{IsWaiting}
use safe_cloud.Finish.Calm.{is_terminal, IsTerminal}
use safe_cloud.Frame.{others}

abbrev pub bit : Bool → ℕ
bit true = 1
bit false = 0

-- The rows in status RECEIVED.
abbrev pub waiting : List Scan → ℕ
waiting [] = 0
waiting (r ∷ rs) = bit (is_received r.status) + waiting rs

bit-cases : (b : Bool) → bit b ≤ 1
bit-cases true = omega arith
bit-cases false = omega arith

claim_row-bit :
    (b : Bool) (now : ℕ) (r : Scan)
    → bit (is_received (if b then claim_row now r else r).status) ≤ bit (is_received r.status)
unfolding claim_row
claim_row-bit true now r = omega arith
claim_row-bit false now r = omega arith

claim-le :
    (id : String) (now : ℕ) (rs : List Scan)
    → waiting (update_rows id (claim_row now) rs) ≤ waiting rs
unfolding update_rows
claim-le id now [] = omega arith
claim-le id now (r ∷ rs) = omega (arith, claim_row-bit (r.id == id) now r, claim-le id now rs)

pub claim-less :
    (q : Scan) (now : ℕ) (rs : List Scan)
    → Any (IsWaiting q) rs
    → waiting (update_rows q.id (claim_row now) rs) < waiting rs
unfolding update_rows claim_row
claim-less q now [] h = absurd h
claim-less q now (r ∷ rs) (inr h) =
    omega (arith, claim_row-bit (r.id == q.id) now r, claim-less q now rs h)
claim-less q now (r ∷ rs) (inl h) = go (r.id == q.id) ((eq_iff r.id q.id).1 (ap (λ u. u.id) h.0))
  where
    go :
        (b : Bool)
        → b ≡ true
        → (bit (is_received (if b then claim_row now r else r).status)
            + waiting (update_rows q.id (claim_row now) rs))
          < (bit (is_received r.status) + waiting rs)
    go true e = omega (arith, ap (λ s. bit (is_received s)) h.1, claim-le q.id now rs)
    go false e = cc

oldest_received-some : (best : Scan) (rs : List Scan) → (oldest_received (some best) rs) ≢ none
unfolding oldest_received
oldest_received-some best [] h = cc
oldest_received-some best (r ∷ rs) h = elim (Bool-cases (is_received r.status)) [
  | inl e ↦ elim (Bool-cases (ltb r.created_at best.created_at)) [
    | inl less ↦ oldest_received-some r rs (ground arith)
    | inr more ↦ oldest_received-some best rs (ground arith)
  ]
  | inr e ↦ oldest_received-some best rs (ground arith)
]

pub oldest_received-waiting : (rs : List Scan) → oldest_received none rs ≡ none → waiting rs ≡ 0
unfolding oldest_received
oldest_received-waiting [] h = refl
oldest_received-waiting (r ∷ rs) h = elim (Bool-cases (is_received r.status)) [
  | inl e ↦ absurd (oldest_received-some r rs (ground arith))
  | inr e ↦ omega (arith, ap bit e, oldest_received-waiting rs (ground arith))
]

others-le : (id : String) (rs : List Scan) → waiting (others id rs) ≤ waiting rs
unfolding others
others-le id [] = omega arith
others-le id (r ∷ rs) = elim (Bool-cases (r.id == id)) [
  | inl e ↦ rw e (omega (arith, others-le id rs))
  | inr e ↦ rw e (omega (arith, others-le id rs))
]

not_both : (s : ScanStatus) → is_terminal s ≡ true → bit (is_received s) ≡ 0
not_both received h = cc
not_both _ h = refl

others-terminal :
    (id : String) (rs : List Scan)
    → All (λ r. r.id ≡ id → IsTerminal r) rs
    → waiting rs ≡ waiting (others id rs)
unfolding others
others-terminal id [] h = refl
others-terminal id (r ∷ rs) h = elim (Bool-cases (r.id == id)) [
  | inl e ↦
      rw e
        (omega (arith, not_both r.status (h.0 ((eq_iff r.id id).0 e)), others-terminal id rs h.1))
  | inr e ↦ rw e (omega (arith, others-terminal id rs h.1))
]

-- A job that leaves the other rows and gives its own a final status adds no waiting row.
pub finish-le :
    (id : String) (before after : List Scan)
    → All (λ r. r.id ≡ id → IsTerminal r) after
    → others id after ≡ others id before
    → waiting after ≤ waiting before
finish-le id before after h e =
    omega (arith, others-terminal id after h, ap waiting e, others-le id before)
