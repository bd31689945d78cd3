-- ===== src/RateLimit/Window.antt =====
-- What a sequence of calls for one key is granted.
use safe_cloud.Prelude.{
  ℕ, List, [], ◌∷◌, ◌++◌, Bool-cases, inl, inr, true, ◌&&◌, ◌+◌, ltb, leb, length, if◌then◌else◌,
  ◌≡◌, ◌⊎◌, ◌↔◌, ◌≤◌, ◌<◌, refl, sym, arith, All, select,
}
use mathlib.Core.List.{append-nil}
use safe_cloud.RateLimit.{expire, allow}

-- The times of the granted calls, of calls at the times given.
unfoldable pub grants : (window limit : ℕ) → List ℕ → List ℕ → List ℕ
grants window limit q [] = []
grants window limit q (now ∷ calls) =
    let (granted, live) = allow window limit now q in
    let rest = grants window limit live calls in if granted then now ∷ rest else rest

-- How many of the times lie in the window that starts at `s`, its ends included.
unfoldable pub count : (window s : ℕ) → List ℕ → ℕ
count window s [] = 0
count window s (t ∷ ts) =
    let rest = count window s ts in if leb s t && leb t (s + window) then 1 + rest else rest

-- Each time is at most the later ones.
abbrev pub IsOrdered : List ℕ → Type 0
IsOrdered [] = Unit
IsOrdered (t ∷ ts) = All (λ u. t ≤ u) ts × IsOrdered ts

module _ (window s : ℕ) where
  count-append :
      (xs ys : List ℕ) → count window s (xs ++ ys) ≡ count window s xs + count window s ys
  unfolding count
  count-append [] ys = omega arith
  count-append (x ∷ xs) ys = ground (arith, count-append xs ys)

  count-length : (xs : List ℕ) → count window s xs ≤ length xs
  unfolding count
  count-length [] = omega arith
  count-length (x ∷ xs) = ground (arith, count-length xs)

  -- What expires lay in no window that reaches the present.
  count-expire :
      (now : ℕ) (q : List ℕ)
      → (s + window < now) ⊎ (count window s (expire window now q) ≡ count window s q)
  unfolding count expire
  count-expire now [] = inr refl
  count-expire now (t ∷ q) = ground (arith, count-expire now q)

  -- Calls after the window's end are not counted.
  count-grants_late :
      (limit : ℕ) (q calls : List ℕ)
      → All (λ u. s + window < u) calls
      → count window s (grants window limit q calls) ≡ 0
  unfolding count grants
  count-grants_late limit q [] h = refl
  count-grants_late limit q (now ∷ calls) (h, hs) =
      ground (arith, count-grants_late limit (allow window limit now q).1 calls hs)

All-later :
    (s window now : ℕ) (calls : List ℕ)
    → s + window < now
    → All (λ u. now ≤ u) calls
    → All (λ u. s + window < u) calls
All-later s window now [] l h = tt
All-later s window now (c ∷ calls) l (h, hs) = (omega arith, All-later s window now calls l hs)

length-expire : (window now : ℕ) (q : List ℕ) → length (expire window now q) ≤ length q
unfolding expire
length-expire window now [] = omega arith
length-expire window now (t ∷ q) = ground (arith, length-expire window now q)

length-snoc : (q : List ℕ) (t : ℕ) → length (q ++ t ∷ []) ≡ 1 + length q
length-snoc [] t = refl
length-snoc (u ∷ q) t = ground (arith, length-snoc q t)

-- From a queue within the limit, the queue's times and the grants keep every window within it.
count-grants_from :
    (window limit s : ℕ) (q calls : List ℕ)
    → IsOrdered calls
    → length q ≤ limit
    → count window s q + count window s (grants window limit q calls) ≤ limit
unfolding grants count allow
count-grants_from window limit s q [] o l = ground (arith, count-length window s q)
count-grants_from window limit s q (now ∷ calls) (o, os) l =
    let live = expire window now q in
    let shorter = length-expire window now q in
    let longer = length-snoc live now in
    elim (count-expire window s now q) [
      | inl late ↦
          let later = All-later s window now calls late o in
          ground (
            arith,
            count-length window s q,
            count-grants_late window s limit live calls later,
            count-grants_late window s limit (live ++ now ∷ []) calls later,
          )
      | inr same ↦ elim (Bool-cases (leb limit (length live))) [
        | inl full ↦
            let rest = count-grants_from window limit s live calls os (omega arith) in
            rw full (omega arith)
        | inr room ↦
            let rest =
              count-grants_from window limit s (live ++ now ∷ []) calls os (ground arith) in
            rw room (ground (arith, count-append window s live (now ∷ [])))
      ]
    ]

-- However many calls one key makes, at times in order and starting with no earlier call, at most `limit` of them are granted in any window of the given length, its two ends included.
pub grants-count_le :
    (window limit s : ℕ) (calls : List ℕ)
    → IsOrdered calls
    → count window s (grants window limit [] calls) ≤ limit
unfolding count
grants-count_le window limit s calls o =
    let bound = count-grants_from window limit s [] calls o (omega arith) in omega arith

-- The times that are not older than a window.
abbrev pub recent : (window now : ℕ) → List ℕ → List ℕ
recent window now q = select (λ t. leb now (t + window)) q

recent_all : (window now : ℕ) (q : List ℕ) → All (λ t. now ≤ t + window) q → recent window now q ≡ q
recent_all window now [] h = refl
recent_all window now (t ∷ q) (h, hs) = ground (arith, recent_all window now q hs)

All-reach :
    (window now t : ℕ) (q : List ℕ)
    → now ≤ t + window
    → All (λ u. t ≤ u) q
    → All (λ u. now ≤ u + window) q
All-reach window now t [] l h = tt
All-reach window now t (u ∷ q) l (h, hs) = (omega arith, All-reach window now t q l hs)

-- In an ordered queue what the loop drops from the front is all that is too old.
expire_eq-recent :
    (window now : ℕ) (q : List ℕ) → IsOrdered q → expire window now q ≡ recent window now q
unfolding expire
expire_eq-recent window now [] o = refl
expire_eq-recent window now (t ∷ q) (h, o) = elim (Bool-cases (ltb (t + window) now)) [
  | inl old ↦ ground (arith, expire_eq-recent window now q o)
  | inr live ↦
      let rest = recent_all window now q (All-reach window now t q (ground arith) h) in ground arith
]

-- For a queue in order, a call is granted exactly if fewer than `limit` of the queue's times are not older than a window, and the queue afterwards has those times alone, with the call's time behind them if it was granted.
pub allow-granted_iff :
    (window limit now : ℕ) (q : List ℕ)
    → IsOrdered q
    → (((allow window limit now q).0 ≡ true) ↔ (length (recent window now q) < limit))
      × ((allow window limit now q).1
          ≡ recent window now q ++ (if (allow window limit now q).0 then now ∷ [] else []))
unfolding allow
allow-granted_iff window limit now q o =
    let e = expire_eq-recent window now q o in
    elim (Bool-cases (leb limit (length (recent window now q)))) [
      | inl full ↦ rw (e, full) ((λ h. cc, λ h. ground arith), sym (append-nil _))
      | inr room ↦ rw (e, room) ((λ h. ground arith, λ h. refl), refl)
    ]
