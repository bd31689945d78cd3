-- ===== src/Prelude/Words.antt =====
-- `str.strip`, `str.lower`, `str.replace` and the shape of a pattern `^…$`; of white space and of
-- upper case letters, the ASCII ones.
use Prim.Native.Nat.{ℕ, zero, suc}
use Prim.Native.Char.{Char, code}
use Prim.Native.String.{String}
use mathlib.Core.Bool.{Bool, ◌&&◌, ◌||◌}
use mathlib.Core.List.{List, [], ◌∷◌, ◌++◌}
use mathlib.Core.Path.{◌≡◌, refl}
use text.Mathlib.Text.{◌==◌}
use safe_cloud.Prelude.Lists.{length}
use safe_cloud.Prelude.Tests.{leb, if◌then◌else◌}
use safe_cloud.Prelude.Text.{eqb, has_prefix}

abbrev pub is_space : ℕ → Bool
is_space c = (leb 9 c && leb c 13) || (leb 28 c && leb c 32)

unfoldable pub lstrip : String → String
lstrip String.[] = ""
lstrip (String.◌∷◌ c s) = let rest = lstrip s in if is_space (code c) then rest else String.◌∷◌ c s

unfoldable pub rstrip : String → String
rstrip String.[] = ""
rstrip (String.◌∷◌ c s) =
    let rest = rstrip s in if is_space (code c) && rest == "" then "" else String.◌∷◌ c rest

-- `text.strip()`
unfoldable pub strip : String → String
strip s = rstrip (lstrip s)

lower_in : Char → String → String → Char
lower_in c String.[] ls = c
lower_in c (String.◌∷◌ u us) String.[] = c
lower_in c (String.◌∷◌ u us) (String.◌∷◌ l ls) =
    let rest = lower_in c us ls in if eqb (code c) (code u) then l else rest

-- `text.lower()`, as a text.
unfoldable pub lower_text : String → String
unfolding lower_in
lower_text String.[] = ""
lower_text (String.◌∷◌ c s) =
    String.◌∷◌ (lower_in c "ABCDEFGHIJKLMNOPQRSTUVWXYZ" "abcdefghijklmnopqrstuvwxyz") (lower_text s)

-- What `$` leaves to a pattern that has no newline: it matches at the end and before a last newline.
unfoldable pub chomp : List ℕ → List ℕ
chomp [] = []
chomp (c ∷ []) = if eqb c 10 then [] else c ∷ []
chomp (c ∷ d ∷ cs) = c ∷ chomp (d ∷ cs)

-- `text.replace(old, new)`, with how many code points of an occurrence are left to skip.
unfoldable pub replace_from : ℕ → (old new : List ℕ) → List ℕ → List ℕ
replace_from skip old new [] = []
replace_from (suc skip) old new (c ∷ cs) = replace_from skip old new cs
replace_from zero [] new (c ∷ cs) = new ++ c ∷ replace_from zero [] new cs
replace_from zero (o ∷ old) new (c ∷ cs) =
    let skipped = replace_from (length old) (o ∷ old) new cs in
    let kept = replace_from zero (o ∷ old) new cs in
    if has_prefix (c ∷ cs) (o ∷ old) then new ++ skipped else c ∷ kept

push_char : Char → List String → List String
push_char c [] = String.◌∷◌ c "" ∷ []
push_char c (p ∷ ps) = String.◌∷◌ c p ∷ ps

-- `text.split(sep)`, as texts.
unfoldable pub split_text : ℕ → String → List String
unfolding push_char
split_text sep String.[] = "" ∷ []
split_text sep (String.◌∷◌ c s) =
    let rest = split_text sep s in if eqb (code c) sep then "" ∷ rest else push_char c rest

last_name : String → List String → String
last_name found [] = found
last_name found (p ∷ ps) = last_name (if p == "" || p == "." then found else p) ps

last_text : String → List String → String
last_text p [] = p
last_text p (q ∷ qs) = last_text q qs

-- The piece behind the last dot, if something stands before that dot.
suffix_of : List String → String
unfolding last_text
suffix_of [] = ""
suffix_of (p ∷ []) = ""
suffix_of (p ∷ q ∷ []) = if p == "" then "" else q
suffix_of (p ∷ q ∷ r ∷ ps) = last_text r ps

-- `Path(filename).suffix.lower().lstrip(".")`
unfoldable pub extension_of : String → String
unfolding last_name suffix_of
extension_of name = lower_text (suffix_of (split_text b'.' (last_name "" (split_text b'/' name))))

extensions :
    (extension_of "a.tar.GZ" ≡ "gz")
    × (extension_of ".profile" ≡ "")
    × (extension_of "dir.d/name" ≡ "")
    × (extension_of "x." ≡ "")
    × (extension_of "a..b" ≡ "b")
    × (extension_of "a.x.y." ≡ "")
unfolding extension_of lower_text split_text
extensions = (refl, refl, refl, refl, refl, refl)
