-- ===== src/Prelude/Text.antt =====
-- Python's `str` operations that the program calls. Where the source walks a text or lowers it, the
-- model has its code points; `lower` leaves what is not ASCII as it is.
use Prim.Native.Nat.{ℕ, ◌+◌, compare, Ordering}
use Prim.Native.Char.{code}
use Prim.Native.String
use Prim.Native.String.{String}
use mathlib.Core.Bool.{Bool, true, false, ◌&&◌, ◌||◌}
use mathlib.Core.Option.{Option, none, some}
use mathlib.Core.List.{List, [], ◌∷◌, ◌++◌, map, reverse}
use mathlib.Core.Path.{◌≡◌, refl}
use text.Mathlib.Text.{◌==◌}
use safe_cloud.Prelude.Tests.{leb, if◌then◌else◌}

-- `value or fallback` on a text that may be `None`: the empty text is false, too.
abbrev pub text_or : Option String → String → String
text_or none d = d
text_or (some s) d = if s == "" then d else s

infixr 65 ◌+++◌
abbrev pub ◌+++◌ : String → String → String
s +++ t = String.◌++◌ s t

abbrev pub eqb : ℕ → ℕ → Bool
eqb a b = elim (compare a b) [ Ordering.eq ↦ true | _ ↦ false ]

abbrev pub codes : String → List ℕ
codes String.[] = []
codes (String.◌∷◌ c s) = code c ∷ codes s

unfoldable pub codes_eq : List ℕ → List ℕ → Bool
codes_eq [] [] = true
codes_eq [] (y ∷ ys) = false
codes_eq (x ∷ xs) [] = false
codes_eq (x ∷ xs) (y ∷ ys) = eqb x y && codes_eq xs ys

-- `text.startswith(prefix)`, on code points or bytes.
unfoldable pub has_prefix : List ℕ → List ℕ → Bool
has_prefix xs [] = true
has_prefix [] (y ∷ ys) = false
has_prefix (x ∷ xs) (y ∷ ys) = eqb x y && has_prefix xs ys

-- `needle in text`
unfoldable pub has_infix : List ℕ → List ℕ → Bool
unfolding has_prefix
has_infix [] needle = has_prefix [] needle
has_infix (x ∷ xs) needle = has_prefix (x ∷ xs) needle || has_infix xs needle

abbrev pub lower_code : ℕ → ℕ
lower_code c = if leb b'A' c && leb c b'Z' then c + 32 else c

-- `text.lower()`
unfoldable pub lower : String → List ℕ
lower s = map lower_code (codes s)

unfoldable pub codes_in : List ℕ → List String → Bool
unfolding codes_eq
codes_in xs [] = false
codes_in xs (s ∷ ss) = codes_eq xs (codes s) || codes_in xs ss

-- `text.split(sep)`, with the piece read so far.
split_from : ℕ → List ℕ → List ℕ → List (List ℕ)
split_from sep piece [] = piece ∷ []
split_from sep piece (c ∷ cs) =
    let closed = split_from sep [] cs in
    let longer = split_from sep (piece ++ c ∷ []) cs in if eqb c sep then piece ∷ closed else longer

unfoldable pub split : ℕ → List ℕ → List (List ℕ)
unfolding split_from
split sep cs = split_from sep [] cs

last_part : List ℕ → List (List ℕ) → List ℕ
unfolding codes_in
last_part found [] = found
last_part found (p ∷ ps) = last_part (if codes_in p ("" ∷ "." ∷ []) then found else p) ps

-- `name[i:]` for the last dot's place `i`, if `0 < i < len(name) - 1`; on the reversed name, with
-- what stands behind the dot.
suffix_from : List ℕ → List ℕ → List ℕ
suffix_from after [] = []
suffix_from after (c ∷ []) = []
suffix_from [] (c ∷ d ∷ cs) = if eqb c b'.' then [] else suffix_from (c ∷ []) (d ∷ cs)
suffix_from (a ∷ after) (c ∷ d ∷ cs) =
    let more = suffix_from (c ∷ a ∷ after) (d ∷ cs) in if eqb c b'.' then c ∷ a ∷ after else more

-- `Path(filename).suffix`
unfoldable pub path_suffix : List ℕ → List ℕ
unfolding split last_part suffix_from
path_suffix cs = suffix_from [] (reverse (last_part [] (split b'/' cs)))

-- `text.rstrip("/")`
unfoldable pub rstrip_slash : String → String
rstrip_slash String.[] = ""
rstrip_slash (String.◌∷◌ c s) =
    let rest = rstrip_slash s in if eqb (code c) b'/' && rest == "" then "" else String.◌∷◌ c rest

suffixes :
    (path_suffix (codes "a.tar.GZ") ≡ codes ".GZ")
    × (path_suffix (codes ".profile") ≡ [])
    × (path_suffix (codes "dir.d/name") ≡ [])
    × (path_suffix (codes "x.") ≡ [])
    × (rstrip_slash "/a//" ≡ "/a")
    × (rstrip_slash "/" ≡ "")
unfolding path_suffix rstrip_slash
suffixes = (refl, refl, refl, refl, refl, refl)
