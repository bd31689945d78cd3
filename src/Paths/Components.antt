-- ===== src/Paths/Components.antt =====
-- The parts of a path.
use Prim.Native.Char.{code}
use text.Mathlib.TextLemmas.{nil-append, cons-append}
use safe_cloud.Prelude.{
  String, List, [], ◌∷◌, ◌++◌, Bool-cases, inl, inr, true, false, eqb, ◌+++◌, contains, ◌≡◌, ◌≢◌,
  refl, ap, ◌∙◌, arith, All, eq_iff,
}
use mathlib.Core.List.{reverse_aux}
use safe_cloud.Paths.{push, split_slash, parent, add_part, reduce}

push-append : (c : String) (ps qs : List String) → ps ≢ [] → push c (ps ++ qs) ≡ push c ps ++ qs
unfolding push
push-append c [] qs h = absurd (h refl)
push-append c (p ∷ ps) qs h = refl

push-ne-nil : (c : String) (ps : List String) → push c ps ≢ []
unfolding push
push-ne-nil c [] = λ e. cc
push-ne-nil c (p ∷ ps) = λ e. cc

split_slash-ne-nil : (s : String) → split_slash s ≢ []
unfolding split_slash
split_slash-ne-nil String.[] = λ e. cc
split_slash-ne-nil (String.◌∷◌ c s) = elim (Bool-cases (eqb (code c) b'/')) [
  | inl e ↦ rw e (λ q. cc)
  | inr e ↦ rw e (push-ne-nil _ (split_slash s))
]

-- A slash between two texts separates their parts.
pub split_slash-append :
    (s t : String) → split_slash (s +++ "/" +++ t) ≡ split_slash s ++ split_slash t
unfolding split_slash push
split_slash-append String.[] t = rw (nil-append, slash) refl
  where
    slash : "/" +++ t ≡ String.◌∷◌ "/" t
    slash = cons-append "/" "" t ∙ ap (λ u. String.◌∷◌ "/" u) (nil-append t)
split_slash-append (String.◌∷◌ c s) t = elim (Bool-cases (eqb (code c) b'/')) [
  | inl e ↦ rw (cons-append, e, split_slash-append s t) refl
  | inr e ↦
      rw (cons-append, e, split_slash-append s t)
        (push-append _ (split_slash s) (split_slash t) (split_slash-ne-nil s))
]

-- The parts of a rooted path that is being normalized: none is empty, a dot or two dots.
abbrev pub IsPart : String → Type 0
IsPart p = (p ≢ "") × (p ≢ ".") × (p ≢ "..")

add_part-IsPart :
    (parts : List String) (c : String) → All IsPart parts → All IsPart (add_part true parts c)
unfolding add_part parent
add_part-IsPart [] c h = ground (arith, eq_iff c "", eq_iff c ".", eq_iff c "..")
add_part-IsPart (top ∷ rest) c (h, hs) =
    ground (arith, eq_iff c "", eq_iff c ".", eq_iff c "..", eq_iff top "..")

All-reverse : (xs ys : List String) → All IsPart xs → All IsPart ys → All IsPart (reverse_aux xs ys)
All-reverse [] ys h k = k
All-reverse (x ∷ xs) ys (h, hs) k = All-reverse xs (x ∷ ys) hs (h, k)

pub reduce-IsPart : (parts cs : List String) → All IsPart parts → All IsPart (reduce true parts cs)
unfolding reduce
reduce-IsPart parts [] h = All-reverse parts [] h tt
reduce-IsPart parts (c ∷ cs) h =
    reduce-IsPart (add_part true parts c) cs (add_part-IsPart parts c h)

pub not_contains : (s : String) (xs : List String) → contains s xs ≡ false → All (λ x. x ≢ s) xs
not_contains s [] h = tt
not_contains s (x ∷ xs) h = (ground (arith, eq_iff x s), not_contains s xs (ground arith))
