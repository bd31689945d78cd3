-- ===== src/Validation/Checks.antt =====
-- What the single checks of a scanner's configuration pass on.
use mathlib.Core.Option.{some-injective}
use safe_cloud.Prelude.Pairs.{All-mono}
use safe_cloud.Validation.Characters.{IsArgumentChar, every-All, chomp-All, is_safe_arg-All}
use safe_cloud.Prelude.{
  ap, ℕ, suc, String, List, [], ◌∷◌, Option, none, some, Bool, Bool-cases, true, false, inl, inr,
  ◌≡◌, subst, ◌⊎◌, ◌≤◌, refl, All, ◌==◌, ◌||◌, ◌&&◌, ltb, leb, arith, length, codes, if◌then◌else◌,
  eqb, strip,
}
use safe_cloud.Validation.{
  ConfigError, Validated, valid, invalid, crashed, and_then, Atom, Json, texts_of, check_args,
  accept, check_command, validate_scan_command, is_image_char, is_image, validate_docker_image,
  is_env_key, env_items, validate_env_vars, in_range,
}

-- At most 512 characters, each of them one of an argument's.
abbrev pub IsArgument : String → Type 0
IsArgument arg = (length (codes arg) ≤ 512) × All IsArgumentChar (codes arg)

check_args-All : (args : List String) → check_args args ≡ none → All IsArgument args
unfolding check_args
check_args-All [] h = tt
check_args-All (arg ∷ args) h =
    ((ground arith, is_safe_arg-All arg (ground arith)), check_args-All args (ground arith))

texts_of-length :
    (xs : List Atom) (ss : List String) → texts_of xs ≡ some ss → length ss ≡ length xs
unfolding texts_of
texts_of-length [] [] h = refl
texts_of-length [] (s ∷ ss) h = cc
texts_of-length (Atom.other ∷ xs) ss h = cc
texts_of-length (Atom.text s ∷ xs) ss h = go (texts_of xs) refl (texts_of-length xs) h
  where
    go :
        (o : Option (List String))
        → texts_of xs ≡ o
        → ((ts : List String) → texts_of xs ≡ some ts → length ts ≡ length xs)
        → (elim o [ none ↦ none | some ts ↦ some (s ∷ ts) ]) ≡ some ss
        → length ss ≡ suc (length xs)
    go none e k h = cc
    go (some ts) e k h = omega (arith, k ts e, ap length (some-injective _ _ h))

value_or : {A : Type 0} → A → Validated A → A
value_or d (valid a) = a
value_or d (invalid e) = d
value_or d crashed = d

pub valid-injective : {A : Type 0} (a b : A) → valid a ≡ valid b → a ≡ b
unfolding value_or
valid-injective a b h = ap (value_or a) h

and_then-valid :
    {A B : Type 0} (v : Validated A) (f : A → Validated B) (b : B)
    → and_then v f ≡ valid b
    → (a : A) × (v ≡ valid a) × (f a ≡ valid b)
unfolding and_then
and_then-valid (valid a) f b h = (a, refl, h)
and_then-valid (invalid e) f b h = cc
and_then-valid crashed f b h = cc

abbrev pub IsCommand : List String → Type 0
IsCommand args = (1 ≤ length args) × (length args ≤ 64) × All IsArgument args

-- Every value that the check passes on has the property.
abbrev pub Gives : {A : Type 0} → (A → Type 0) → Validated A → Type 0
Gives {A} P v = (a : A) → v ≡ valid a → P a

pub Gives-valid : {A : Type 0} (P : A → Type 0) (a : A) → P a → Gives P (valid a)
Gives-valid P a p b h = subst P (valid-injective a b h) p

pub Gives-and_then :
    {A B : Type 0} {P : B → Type 0} (v : Validated A) (f : A → Validated B)
    → ((a : A) → v ≡ valid a → Gives P (f a))
    → Gives P (and_then v f)
Gives-and_then v f g b h = let (a, e, d) = and_then-valid v f b h in g a e b d

pub validate_scan_command-IsCommand :
    (value : Json) (args : List String) → validate_scan_command value ≡ valid args → IsCommand args
unfolding validate_scan_command
validate_scan_command-IsCommand Json.null args h = cc
validate_scan_command-IsCommand Json.scalar args h = cc
validate_scan_command-IsCommand (Json.object items) args h = cc
validate_scan_command-IsCommand (Json.array []) args h = cc
validate_scan_command-IsCommand (Json.array (x ∷ xs)) args h = go (texts_of (x ∷ xs)) refl h
  where
    checked :
        (ss : List String) (long : Bool) (o : Option ConfigError)
        → length ss ≡ suc (length xs)
        → ltb 64 (length ss) ≡ long
        → check_args ss ≡ o
        → (if long then invalid ConfigError.too_many_arguments else accept ss o) ≡ valid args
        → IsCommand args
    checked ss true o n l e h = cc
    checked ss false (some x) n l e h = cc
    checked ss false none n l e h =
        subst IsCommand (valid-injective _ _ h) (ground arith, ground arith, check_args-All ss e)

    go :
        (o : Option (List String))
        → texts_of (x ∷ xs) ≡ o
        → check_command o ≡ valid args
        → IsCommand args
    go none e h = cc
    go (some ss) e h =
        checked ss (ltb 64 (length ss)) (check_args ss) (texts_of-length (x ∷ xs) ss e) refl refl h

pub in_range-bounds :
    (low high : ℕ) (e : ConfigError) (o : Option ℕ) (n : ℕ)
    → in_range low high e o ≡ valid n
    → (low ≤ n) × (n ≤ high)
in_range-bounds low high e none n h = cc
in_range-bounds low high e (some m) n h = go (Bool-cases (leb low m && leb m high)) h
  where
    go :
        (leb low m && leb m high ≡ true) ⊎ (leb low m && leb m high ≡ false)
        → (if leb low m && leb m high then valid m else invalid e) ≡ valid n
        → (low ≤ n) × (n ≤ high)
    go (inl y) = rw y (λ h.
        subst (λ k. (low ≤ k) × (k ≤ high)) (valid-injective _ _ h) (ground arith, ground arith))
    go (inr y) = rw y (λ h. cc)

-- A value that a test decides on.
pub if-valid :
    {A : Type 0} (b : Bool) (a c : A) (e : ConfigError)
    → (if b then valid a else invalid e) ≡ valid c
    → (b ≡ true) × (a ≡ c)
if-valid true a c e h = (refl, valid-injective a c h)
if-valid false a c e h = cc

-- An image's character, or a newline at the end.
abbrev pub IsImageChar : ℕ → Type 0
IsImageChar c = is_image_char c || eqb c 10 ≡ true

image_newline : IsImageChar 10
unfolding is_image_char
image_newline = refl

is_image-All : (cs : List ℕ) → is_image cs ≡ true → All IsImageChar cs
unfolding is_image is_image_char
is_image-All [] h = tt
is_image-All (c ∷ cs) h = (
  ground arith,
  chomp-All IsImageChar cs image_newline
      (All-mono _ _ _ (λ d e. ground arith) (every-All is_image_char _ (ground arith))),
)

pub validate_docker_image-All :
    (value image : String)
    → validate_docker_image value ≡ valid image
    → All IsImageChar (codes image)
unfolding validate_docker_image
validate_docker_image-All value image h = go (strip value == "") h
  where
    go :
        (b : Bool)
        → (if b
            then invalid ConfigError.image_required
            else if is_image (codes (strip value))
            then valid (strip value)
            else invalid ConfigError.image_characters)
          ≡ valid image
        → All IsImageChar (codes image)
    go true h = cc
    go false h =
        let (y, s) = if-valid _ _ _ _ h in
        subst (λ t. All IsImageChar (codes t)) s (is_image-All _ y)

env_items-keys :
    (items : List (String × Atom)) (vars : List (String × String))
    → env_items items ≡ valid vars
    → All (λ v. is_env_key (codes v.0) ≡ true) vars
unfolding env_items
env_items-keys [] vars h = subst (All _) (valid-injective _ _ h) tt
env_items-keys ((k, Atom.other) ∷ items) vars h = go (is_env_key (codes k)) h
  where
    go :
        (b : Bool)
        → (if b then invalid ConfigError.env_value else invalid ConfigError.env_key) ≡ valid vars
        → All (λ v. is_env_key (codes v.0) ≡ true) vars
    go true h = cc
    go false h = cc
env_items-keys ((k, Atom.text v) ∷ items) vars h =
    go (is_env_key (codes k)) refl (env_items-keys items) h
  where
    go :
        (b : Bool)
        → is_env_key (codes k) ≡ b
        → ((ds : List (String × String))
            → env_items items ≡ valid ds
            → All (λ v. is_env_key (codes v.0) ≡ true) ds)
        → (if b
            then and_then (env_items items) (λ ds. valid ((k, v) ∷ ds))
            else invalid ConfigError.env_key)
          ≡ valid vars
        → All (λ v. is_env_key (codes v.0) ≡ true) vars
    go false e f h = cc
    go true e f h =
        let (ds, d, same) = and_then-valid (env_items items) _ _ h in
        subst (All (λ v. is_env_key (codes v.0) ≡ true)) (valid-injective _ _ same) (e, f ds d)

pub validate_env_vars-keys :
    (value : Json) (vars : List (String × String))
    → validate_env_vars value ≡ valid vars
    → All (λ v. is_env_key (codes v.0) ≡ true) vars
unfolding validate_env_vars
validate_env_vars-keys Json.null vars h = subst (All _) (valid-injective _ _ h) tt
validate_env_vars-keys Json.scalar vars h = cc
validate_env_vars-keys (Json.array xs) vars h = cc
validate_env_vars-keys (Json.object items) vars h = env_items-keys items vars h
