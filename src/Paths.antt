-- ===== src/Paths.antt =====
-- api/security.py: `normalize_and_validate_path`, with `posixpath.normpath` of Python's library, and
-- the checks of the user's name and of the host.
use Prim.Native.Char.{code}
use Prim.Native.String
pub mod Components
pub mod Containment
use safe_cloud.Prelude.{
  ℕ, String, List, [], ◌∷◌, Option, none, some, Bool, true, false, not, ◌==◌, ◌&&◌, ◌||◌, leb, eqb,
  if◌then◌else◌, ◌+++◌, contains, lookup, length, codes, rstrip_slash, starts_with, is_empty, ◌≡◌,
  refl,
}
use mathlib.Core.List.{reverse}
use safe_cloud.Scanner.{NextcloudHost}

push : String → List String → List String
push c [] = c ∷ []
push c (p ∷ ps) = (c +++ p) ∷ ps

-- `path.split("/")`
unfoldable pub split_slash : String → List String
unfolding push
split_slash String.[] = "" ∷ []
split_slash (String.◌∷◌ c s) =
    let rest = split_slash s in if eqb (code c) b'/' then "" ∷ rest else push (String.◌∷◌ c "") rest

-- `"/".join(parts)`
unfoldable pub join_slash : List String → String
join_slash [] = ""
join_slash (p ∷ []) = p
join_slash (p ∷ q ∷ ps) = p +++ "/" +++ join_slash (q ∷ ps)

-- The parts read so far, last first, after a part `..`.
unfoldable pub parent : Bool → List String → List String
parent rooted [] = if rooted then [] else ".." ∷ []
parent rooted (top ∷ rest) = if top == ".." then ".." ∷ top ∷ rest else rest

unfoldable pub add_part : Bool → List String → String → List String
unfolding parent
add_part rooted parts part =
    if part == "" || part == "."
    then parts
    else if part == ".."
    then parent rooted parts
    else part ∷ parts

unfoldable pub reduce : Bool → List String → List String → List String
unfolding add_part
reduce rooted parts [] = reverse parts
reduce rooted parts (c ∷ cs) = reduce rooted (add_part rooted parts c) cs

-- The slashes that an absolute path keeps: POSIX leaves two of them alone.
unfoldable pub initial_slashes : String → String
initial_slashes path =
    if starts_with path "//" && not (starts_with path "///")
    then "//"
    else if starts_with path "/"
    then "/"
    else ""

-- `posixpath.normpath(path)`
unfoldable pub normpath : String → String
normpath path =
    if path == ""
    then "."
    else (let normal =
          initial_slashes path
          +++ join_slash (reduce (starts_with path "/") [] (split_slash path)) in
        if normal == "" then "." else normal)

unfoldable pub has_null : String → Bool
has_null String.[] = false
has_null (String.◌∷◌ c s) = eqb (code c) 0 || has_null s

-- `none` is `PathNotAllowedError`.
unfoldable pub normalize_and_validate_path : String → String → Option String
normalize_and_validate_path file_path allowed_root =
    let normalized = normpath file_path in
    let root = normpath allowed_root in
    if file_path == "" || has_null file_path
    then none
    else if not (starts_with file_path "/")
    then none
    else if contains ".." (split_slash normalized)
    then none
    else if normalized == root || starts_with normalized (rstrip_slash root +++ "/")
    then some normalized
    else none

is_name_code : ℕ → Bool
is_name_code c =
    leb b'A' c && leb c b'Z'
    || leb b'a' c && leb c b'z'
    || leb b'0' c && leb c b'9'
    || eqb c b'_'
    || eqb c b'.'
    || eqb c b'-'

all_name_codes : List ℕ → Bool
unfolding is_name_code
all_name_codes [] = true
all_name_codes (c ∷ cs) = is_name_code c && all_name_codes cs

-- `$` matches before a line feed that ends the text, too.
without_newline : List ℕ → List ℕ
without_newline [] = []
without_newline (c ∷ cs) =
    let rest = without_newline cs in if eqb c 10 && is_empty cs then [] else c ∷ rest

-- `^[A-Za-z0-9_.\-]{1,255}$`, the expression for names of users and of hosts.
unfoldable pub matches_name : String → Bool
unfolding all_name_codes without_newline
matches_name s =
    let body = without_newline (codes s) in
    all_name_codes body && leb 1 (length body) && leb (length body) 255

-- `none` is `ValueError`.
unfoldable pub validate_username : String → Option String
validate_username username = if matches_name username then some username else none

-- `none` is `HostNotAllowedError`.
unfoldable pub resolve_nextcloud_host :
    List (String × NextcloudHost) → String → Option NextcloudHost
resolve_nextcloud_host mapping hostname =
    if matches_name hostname then lookup hostname mapping else none

normal_paths :
    (normpath "/data//a/./b/../c/" ≡ "/data/a/c")
    × (normpath "/../../etc" ≡ "/etc")
    × (normpath "//x/y" ≡ "//x/y")
    × (normpath "a/../.." ≡ "..")
    × (normalize_and_validate_path "/data/u/../v" "/data/" ≡ some "/data/v")
    × (normalize_and_validate_path "/data/../etc/passwd" "/data" ≡ none)
    × (normalize_and_validate_path "/database/x" "/data" ≡ none)
    × (matches_name "a.b-c\n" ≡ true)
    × (matches_name "a b" ≡ false)
unfolding normalize_and_validate_path normpath has_null split_slash rstrip_slash matches_name reduce
    initial_slashes join_slash
normal_paths = (refl, refl, refl, refl, refl, refl, refl, refl, refl)
