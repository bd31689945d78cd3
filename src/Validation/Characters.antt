-- ===== src/Validation/Characters.antt =====
-- The characters of what the patterns of api/scanners.py accept.
use safe_cloud.Prelude.Pairs.{All-mono}
use safe_cloud.Prelude.{
  ℕ, zero, suc, String, List, [], ◌∷◌, Bool, true, false, ◌≡◌, subst, sym, refl, All, ◌||◌, arith,
  length, codes, if◌then◌else◌, has_prefix, eqb, chomp,
}
use safe_cloud.Validation.{every, is_one_of, is_safe_char, strip_placeholders, is_safe_arg}

-- A safe character, a brace of a placeholder, or a newline, which `$` admits at the end.
abbrev pub is_argument_char : ℕ → Bool
is_argument_char c = is_safe_char c || is_one_of c (b'{' ∷ b'}' ∷ 10 ∷ [])

abbrev pub IsArgumentChar : ℕ → Type 0
IsArgumentChar c = is_argument_char c ≡ true

-- The first code points have the property.
abbrev First : (ℕ → Type 0) → ℕ → List ℕ → Type 0
First P zero cs = Unit
First P (suc k) [] = Unit
First P (suc k) (c ∷ cs) = P c × First P k cs

eqb-eq : (a b : ℕ) → eqb a b ≡ true → a ≡ b
eqb-eq a b h = ground arith

pub every-All : (p : ℕ → Bool) (cs : List ℕ) → every p cs ≡ true → All (λ c. p c ≡ true) cs
every-All p [] h = tt
every-All p (c ∷ cs) h = (ground arith, every-All p cs (ground arith))

pub chomp-All : (P : ℕ → Type 0) (cs : List ℕ) → P 10 → All P (chomp cs) → All P cs
unfolding chomp
chomp-All P [] n h = tt
chomp-All P (c ∷ []) n h = (go (eqb c 10) refl h, tt)
  where
    go : (b : Bool) → eqb c 10 ≡ b → All P (if b then [] else c ∷ []) → P c
    go true e h = subst P (sym (eqb-eq c 10 e)) n
    go false e h = h.0
chomp-All P (c ∷ d ∷ cs) n h = (h.0, chomp-All P (d ∷ cs) n h.1)

has_prefix-First :
    (P : ℕ → Type 0) (cs prefix : List ℕ)
    → has_prefix cs prefix ≡ true
    → All P prefix
    → First P (length prefix) cs
unfolding has_prefix
has_prefix-First P cs [] h a = tt
has_prefix-First P [] (y ∷ ys) h a = tt
has_prefix-First P (x ∷ xs) (y ∷ ys) h a =
    (subst P (sym (eqb-eq x y (ground arith))) a.0, has_prefix-First P xs ys (ground arith) a.1)

file_chars : All IsArgumentChar (codes "{{FILE}}")
unfolding is_safe_char
file_chars = every-All is_argument_char (codes "{{FILE}}") refl

output_chars : All IsArgumentChar (codes "{{OUTPUT}}")
unfolding is_safe_char
output_chars = every-All is_argument_char (codes "{{OUTPUT}}") refl

-- What the induction gives for the rest of an argument.
abbrev Kept : List ℕ → ℕ → Type 0
Kept cs k =
    All IsArgumentChar (strip_placeholders k cs) → First IsArgumentChar k cs → All IsArgumentChar cs

strip_placeholders-All :
    (k : ℕ) (cs : List ℕ)
    → All IsArgumentChar (strip_placeholders k cs)
    → First IsArgumentChar k cs
    → All IsArgumentChar cs
unfolding strip_placeholders
strip_placeholders-All k [] h f = tt
strip_placeholders-All (suc k) (c ∷ cs) h f = (f.0, strip_placeholders-All k cs h f.1)
strip_placeholders-All zero (c ∷ cs) h f =
    go (has_prefix (c ∷ cs) (codes "{{FILE}}")) (has_prefix (c ∷ cs) (codes "{{OUTPUT}}")) refl refl
      (strip_placeholders-All 7 cs) (strip_placeholders-All 9 cs) (strip_placeholders-All zero cs) h
  where
    go :
        (file output : Bool)
        → has_prefix (c ∷ cs) (codes "{{FILE}}") ≡ file
        → has_prefix (c ∷ cs) (codes "{{OUTPUT}}") ≡ output
        → Kept cs 7
        → Kept cs 9
        → Kept cs 0
        → All IsArgumentChar (
            if file
            then strip_placeholders 7 cs
            else if output
            then strip_placeholders 9 cs
            else c ∷ strip_placeholders zero cs)
        → All IsArgumentChar (c ∷ cs)
    go true output e d k7 k9 k0 h =
        let start = has_prefix-First IsArgumentChar (c ∷ cs) (codes "{{FILE}}") e file_chars in
        (start.0, k7 h start.1)
    go false true e d k7 k9 k0 h =
        let start = has_prefix-First IsArgumentChar (c ∷ cs) (codes "{{OUTPUT}}") d output_chars in
        (start.0, k9 h start.1)
    go false false e d k7 k9 k0 h = (h.0, k0 h.1 tt)

newline : IsArgumentChar 10
unfolding is_safe_char
newline = refl

pub is_safe_arg-All : (arg : String) → is_safe_arg arg ≡ true → All IsArgumentChar (codes arg)
unfolding is_safe_arg
is_safe_arg-All arg h =
    strip_placeholders-All 0 (codes arg)
      (chomp-All IsArgumentChar _ newline
        (All-mono _ _ _ (λ c e. ground arith) (every-All is_safe_char _ h)))
      tt
