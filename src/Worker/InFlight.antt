-- ===== src/Worker/InFlight.antt =====
-- The jobs in flight: every row waits, is done, or is that of one of them.
use safe_cloud.Prelude.{
  ℕ, suc, String, List, [], ◌∷◌, ◌++◌, Option, none, some, Bool, Bool-cases, true, false, not, inl,
  inr, ◌==◌, ◌+◌, ◌*◌, ◌≡◌, ◌≢◌, ◌⊎◌, refl, sym, ap, subst, ◌∙◌, arith, eq_iff, All, Any, length,
  if◌then◌else◌,
}
use safe_cloud.Policy.{received}
use safe_cloud.Exec.{ok, pure, modify, gets, ◌>>=◌}
use safe_cloud.Db.{Scan, World, claim_row, oldest_received, claim_next_scan, claim_in, claimed}
use safe_cloud.Db.ScanLaws.{connect_calm, update_rows-All}
use safe_cloud.Db.Claims.{claim_next_scan-IsClaim}
use safe_cloud.Finish.Calm.{IsTerminal, Calm}
use safe_cloud.Frame.{others}
use safe_cloud.Worker.Turns.{Pool}
use safe_cloud.Worker.Waiting.{waiting}

-- A row waits, has a final status, or is that of a job in flight.
abbrev pub Accounted : List Scan → Scan → Type 0
Accounted jobs r = (r.status ≡ received) ⊎ IsTerminal r ⊎ Any (λ j. j.id ≡ r.id) jobs

pub record IsSound (p : Pool) : Type 0 where
  pub calm : Calm p.world
  pub rows : All (Accounted p.in_flight) p.world.scans

-- Two steps for each row that waits, one for each job in flight.
abbrev pub left : Pool → ℕ
left p = 2 * waiting p.world.scans + length p.in_flight

pub length-append : (xs : List Scan) (x : Scan) → length (xs ++ x ∷ []) ≡ suc (length xs)
length-append [] x = refl
length-append (y ∷ xs) x = omega (arith, length-append xs x)

pub length-without :
    (xs ys : List Scan) (x : Scan) → length (xs ++ x ∷ ys) ≡ suc (length (xs ++ ys))
length-without [] ys x = refl
length-without (y ∷ xs) ys x = omega (arith, length-without xs ys x)

pub Any-append : (P : Scan → Type 0) (xs ys : List Scan) → Any P xs → Any P (xs ++ ys)
Any-append P [] ys h = absurd h
Any-append P (x ∷ xs) ys (inl h) = inl h
Any-append P (x ∷ xs) ys (inr h) = inr (Any-append P xs ys h)

Any-last : (P : Scan → Type 0) (xs : List Scan) (x : Scan) → P x → Any P (xs ++ x ∷ [])
Any-last P [] x h = inl h
Any-last P (y ∷ xs) x h = inr (Any-last P xs x h)

pub Any-without :
    (P : Scan → Type 0) (xs ys : List Scan) (x : Scan)
    → (P x → ⊥)
    → Any P (xs ++ x ∷ ys)
    → Any P (xs ++ ys)
Any-without P [] ys x n (inl h) = absurd (n h)
Any-without P [] ys x n (inr h) = h
Any-without P (y ∷ xs) ys x n (inl h) = inl h
Any-without P (y ∷ xs) ys x n (inr h) = inr (Any-without P xs ys x n h)

pub claim_undisturbed :
    (w : World)
    → Calm w
    → claim_next_scan w
      ≡ (ok (claimed w (oldest_received none w.scans)), claim_in w (oldest_received none w.scans))
unfolding claim_next_scan ◌>>=◌ pure gets modify
claim_undisturbed w h = rw (connect_calm w h) refl

claim-Calm : (w : World) → Calm w → Calm (claim_next_scan w).1
claim-Calm w h =
    subst (λ r. Calm r.1) (sym (claim_undisturbed w h)) (kept (oldest_received none w.scans))
  where
    kept : (found : Option Scan) → Calm (claim_in w found)
    kept none = h
    kept (some r) = h

pub claim-IsSound :
    (w : World) (jobs : List Scan) (scan : Scan)
    → (claim_next_scan w).0 ≡ ok (some scan)
    → IsSound (record { world = w; in_flight = jobs })
    → IsSound (record { world = (claim_next_scan w).1; in_flight = jobs ++ scan ∷ [] })
unfolding claim_row
claim-IsSound w jobs scan e h =
    let (q, same, there, first, after) = claim_next_scan-IsClaim w scan e in
    record {
      calm = claim-Calm w h.calm;
      rows = subst (All (Accounted (jobs ++ scan ∷ []))) (sym after) (
          update_rows-All q.id (claim_row w.clock) (Accounted jobs) _ w.scans
            (λ r k a. inr (inr (Any-last _ jobs scan (ap (λ u. u.id) same ∙ sym k))))
            (λ r k a. more r a) h.rows);
    }
  where
    more : (r : Scan) → Accounted jobs r → Accounted (jobs ++ scan ∷ []) r
    more r (inl a) = inl a
    more r (inr (inl a)) = inr (inl a)
    more r (inr (inr a)) = inr (inr (Any-append _ jobs (scan ∷ []) a))

-- Of the rows with another key, what holds before the job holds after it.
pub others-All :
    (P : Scan → Type 0) (id : String) (rs : List Scan) → All P rs → All P (others id rs)
unfolding others
others-All P id [] h = tt
others-All P id (r ∷ rs) h = elim (Bool-cases (r.id == id)) [
  | inl e ↦ rw e (others-All P id rs h.1)
  | inr e ↦ rw e (h.0, others-All P id rs h.1)
]

pub All-others :
    (P : Scan → Type 0) (id : String) (rs : List Scan)
    → All P (others id rs)
    → All (λ r. r.id ≢ id → P r) rs
unfolding others
All-others P id [] h = tt
All-others P id (r ∷ rs) h = go (r.id == id) refl h (All-others P id rs)
  where
    go :
        (b : Bool)
        → (r.id == id) ≡ b
        → All P (if not b then r ∷ others id rs else others id rs)
        → (All P (others id rs) → All (λ r. r.id ≢ id → P r) rs)
        → (r.id ≢ id → P r) × All (λ r. r.id ≢ id → P r) rs
    go true e h f = ((λ n. absurd (n ((eq_iff r.id id).0 e))), f h)
    go false e h f = ((λ n. h.0), f h.1)

pub both :
    (P : Scan → Type 0) (id : String) (rs : List Scan)
    → All (λ r. r.id ≡ id → P r) rs
    → All (λ r. r.id ≢ id → P r) rs
    → All P rs
both P id [] h k = tt
both P id (r ∷ rs) h k = (here (Bool-cases (r.id == id)), both P id rs h.1 k.1)
  where
    here : ((r.id == id) ≡ true) ⊎ ((r.id == id) ≡ false) → P r
    here (inl e) = h.0 ((eq_iff r.id id).0 e)
    here (inr e) = k.0 (λ same. ground (arith, eq_iff r.id id))
