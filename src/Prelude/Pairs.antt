-- ===== src/Prelude/Pairs.antt =====
-- Lists whose elements are pairwise related, as the keys of a table are pairwise different.
use mathlib.Core.Bool.{Bool, true, false}
use mathlib.Core.List.{List, [], ◌∷◌, ◌++◌, map}
use safe_cloud.Prelude.Tests.{if◌then◌else◌}
use safe_cloud.Prelude.Lists.{All, select}

module _ {A : Type 0} (R : A → A → Type 0) where
  abbrev pub Apart : List A → Type 0
  Apart [] = Unit
  Apart (x ∷ xs) = All (R x) xs × Apart xs

module _ {A : Type 0} where
  pub All-append : (P : A → Type 0) (xs : List A) (x : A) → All P xs → P x → All P (xs ++ x ∷ [])
  All-append P [] x h p = (p, tt)
  All-append P (y ∷ xs) x h p = (h.0, All-append P xs x h.1 p)

  pub All-mono : (P Q : A → Type 0) (xs : List A) → ((x : A) → P x → Q x) → All P xs → All Q xs
  All-mono P Q [] f h = tt
  All-mono P Q (x ∷ xs) f h = (f x h.0, All-mono P Q xs f h.1)

  pub All-select : (P : A → Type 0) (p : A → Bool) (xs : List A) → All P xs → All P (select p xs)
  All-select P p [] h = tt
  All-select P p (x ∷ xs) h = go (p x) (All-select P p xs h.1)
    where
      go : (b : Bool) → All P (select p xs) → All P (if b then x ∷ select p xs else select p xs)
      go true rest = (h.0, rest)
      go false rest = rest

  pub All-map :
      {B : Type 0} (P : A → Type 0) (Q : B → Type 0) (f : A → B) (xs : List A)
      → ((x : A) → P x → Q (f x))
      → All P xs
      → All Q (map f xs)
  All-map P Q f [] g h = tt
  All-map P Q f (x ∷ xs) g h = (g x h.0, All-map P Q f xs g h.1)

  pub Apart-append :
      (R : A → A → Type 0) (xs : List A) (x : A)
      → All (λ y. R y x) xs
      → Apart R xs
      → Apart R (xs ++ x ∷ [])
  Apart-append R [] x a h = (tt, tt)
  Apart-append R (y ∷ xs) x a h = (All-append (R y) xs x h.0 a.0, Apart-append R xs x a.1 h.1)

  pub Apart-select :
      (R : A → A → Type 0) (p : A → Bool) (xs : List A) → Apart R xs → Apart R (select p xs)
  Apart-select R p [] h = tt
  Apart-select R p (x ∷ xs) h = go (p x) (Apart-select R p xs h.1)
    where
      go : (b : Bool) → Apart R (select p xs) → Apart R (if b then x ∷ select p xs else select p xs)
      go true rest = (All-select (R x) p xs h.0, rest)
      go false rest = rest

  All-zip : (P Q : A → Type 0) (xs : List A) → All P xs → All Q xs → All (λ x. P x × Q x) xs
  All-zip P Q [] h k = tt
  All-zip P Q (x ∷ xs) h k = ((h.0, k.0), All-zip P Q xs h.1 k.1)

  -- A change of every element that keeps the relation between elements with the property.
  pub Apart-map :
      (R : A → A → Type 0) (O : A → Type 0) (f : A → A) (xs : List A)
      → ((x y : A) → O x → O y → R x y → R (f x) (f y))
      → All O xs
      → Apart R xs
      → Apart R (map f xs)
  Apart-map R O f [] g o h = tt
  Apart-map R O f (x ∷ xs) g o h = (
    All-map (λ y. O y × R x y) (R (f x)) f xs (λ y k. g x y o.0 k.0 k.1)
        (All-zip O (R x) xs o.1 h.0),
    Apart-map R O f xs g o.1 h.1,
  )

  pub All-top : (xs : List A) → All (λ x. Unit {0}) xs
  All-top [] = tt
  All-top (x ∷ xs) = (tt, All-top xs)
