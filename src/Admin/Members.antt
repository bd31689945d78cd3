-- ===== src/Admin/Members.antt =====
-- The scanners of a profile, as they are set and as they are read.
use mathlib.Core.List.{append-nil, append_assoc}
use safe_cloud.Prelude.{
  ℕ, suc, String, List, [], ◌∷◌, ◌++◌, Bool, Bool-cases, true, false, not, inl, inr, ◌==◌, ◌&&◌,
  ◌≤◌, ◌≡◌, refl, sym, ap, ◌∙◌, arith, eq_refl, All, select, ltb, if◌then◌else◌,
}
use safe_cloud.Exec.{continue, Result, ok, raised, db_error, raise, gets, modify, ◌>>=◌}
use safe_cloud.Db.{
  query, get_profile_scanners, ScannerConfig, Membership, World, insert_member, sort_members,
  scanners_of, profile_scanners,
}
use safe_cloud.Db.ScanLaws.{connect_calm}
use safe_cloud.Admin.Config.{numbered, put_members, may_set, checked, set_profile_scanners}

abbrev OfProfile : String → Membership → Type 0
OfProfile id m = (m.profile_id == id) ≡ true

select-append :
    (p : Membership → Bool) (xs ys : List Membership)
    → select p (xs ++ ys) ≡ select p xs ++ select p ys
select-append p [] ys = refl
select-append p (x ∷ xs) ys = elim (Bool-cases (p x)) [
  | inl e ↦ rw (e, select-append p xs ys) refl
  | inr e ↦ rw (e, select-append p xs ys) refl
]

-- The other profiles' rows do not count.
select-others :
    (id : String) (ms : List Membership)
    → select (λ m. m.profile_id == id) (select (λ m. not (m.profile_id == id)) ms) ≡ []
select-others id [] = refl
select-others id (m ∷ ms) = elim (Bool-cases (m.profile_id == id)) [
  | inl e ↦ rw e (select-others id ms)
  | inr e ↦ rw (e, e) (select-others id ms)
]

select-numbered :
    (id : String) (n : ℕ) (ids : List String)
    → select (λ m. m.profile_id == id) (numbered id n ids) ≡ numbered id n ids
unfolding numbered
select-numbered id n [] = refl
select-numbered id n (k ∷ ids) = rw (eq_refl, select-numbered id (suc n) ids) refl

-- Rows in the order of their places stay in it.
insert-last :
    (m : Membership) (ms : List Membership)
    → All (λ k. k.order_index ≤ m.order_index) ms
    → insert_member m ms ≡ ms ++ m ∷ []
unfolding insert_member
insert-last m [] h = refl
insert-last m (k ∷ ms) h = elim (Bool-cases (ltb m.order_index k.order_index)) [
  | inl e ↦ absurd (ground arith)
  | inr e ↦ rw (e, insert-last m ms h.1) refl
]

abbrev row : String → ℕ → String → Membership
row id n k = record { profile_id = id; scanner_id = k; order_index = n }

next-place :
    (id : String) (n : ℕ) (k : String) (ms : List Membership)
    → All (λ m. m.order_index ≤ n) ms
    → All (λ m. m.order_index ≤ suc n) (ms ++ row id n k ∷ [])
next-place id n k [] h = (omega arith, tt)
next-place id n k (m ∷ ms) h = (omega (arith, h.0), next-place id n k ms h.1)

sort-numbered :
    (id : String) (n : ℕ) (ids : List String) (ms : List Membership)
    → All (λ k. k.order_index ≤ n) ms
    → sort_members ms (numbered id n ids) ≡ ms ++ numbered id n ids
unfolding sort_members numbered
sort-numbered id n [] ms h = sym (append-nil ms)
sort-numbered id n (k ∷ ids) ms h =
    rw (sort_members, insert-last (row id n k) ms h)
      (sort-numbered id (suc n) ids (ms ++ row id n k ∷ []) (next-place id n k ms h)
        ∙ append_assoc ms (row id n k ∷ []) (numbered id (suc n) ids))

-- The scanners that are enabled, in the order of the keys.
unfoldable pub enabled_in_order : List String → List ScannerConfig → List ScannerConfig
enabled_in_order [] scanners = []
enabled_in_order (id ∷ ids) scanners =
    select (λ s. s.id == id && s.enabled) scanners ++ enabled_in_order ids scanners

scanners_of-numbered :
    (id : String) (n : ℕ) (ids : List String) (scanners : List ScannerConfig)
    → scanners_of (numbered id n ids) scanners ≡ enabled_in_order ids scanners
unfolding scanners_of numbered enabled_in_order
scanners_of-numbered id n [] scanners = refl
scanners_of-numbered id n (k ∷ ids) scanners =
    rw (scanners_of-numbered id (suc n) ids scanners) refl

profile_scanners-put_members :
    (id : String) (ids : List String) (w : World)
    → profile_scanners id (put_members id ids w) ≡ enabled_in_order ids w.scanners
unfolding profile_scanners put_members
profile_scanners-put_members id ids w =
    rw
      (
        select-append (λ m. m.profile_id == id)
            (select (λ m. not (m.profile_id == id)) w.memberships) (numbered id 0 ids),
        select-others id w.memberships,
        select-numbered id 0 ids,
        sort-numbered id 0 ids [] tt,
      )
      (scanners_of-numbered id 0 ids w.scanners)

get_calm :
    (id : String) (w : World)
    → w.faults ≡ []
    → get_profile_scanners id w ≡ (ok (profile_scanners id w), w)
unfolding get_profile_scanners query gets ◌>>=◌
get_calm id w calm = rw (connect_calm w calm) refl

-- The scanners that are set are the scanners that are read: where no call of the database fails, setting a profile's scanners and then reading them gives the enabled ones of the scanners given, in the order given, if the profile and the scanners exist and no scanner is given twice (or none is given), and otherwise raises and leaves the tables as they were.
pub set_profile_scanners-get_profile_scanners :
    (id : String) (ids : List String) (w : World)
    → w.faults ≡ []
    → (set_profile_scanners id ids >>= λ _. get_profile_scanners id) w ≡ (
        if may_set id ids w
        then (ok (enabled_in_order ids w.scanners), put_members id ids w)
        else (raised db_error, w))
unfolding put_members set_profile_scanners checked gets modify raise ◌>>=◌
set_profile_scanners-get_profile_scanners id ids w calm =
    rw (connect_calm w calm) (go (may_set id ids w))
  where
    go :
        (b : Bool)
        → ◌≡◌ {A = Result (List ScannerConfig) × World}
            (let (r, v) = ((if b then modify (put_members id ids) else raise db_error) w) in
              continue r v (λ (_ : Unit {0}). get_profile_scanners id))
            (if b
              then (ok (enabled_in_order ids w.scanners), put_members id ids w)
              else (raised db_error, w))
    go true =
        get_calm id (put_members id ids w) calm
        ∙ ap (λ r. (ok r, put_members id ids w)) (profile_scanners-put_members id ids w)
    go false = refl
