-- ===== src/Validation.antt =====
-- api/scanners.py: the checks that a scanner's configuration passes before it is stored, and the
-- preview of its command. Of a JSON value there is as much as the checks look at.
pub mod Characters
pub mod Checks
pub mod Safety
use safe_cloud.Prelude.{
  ℕ, zero, suc, String, List, [], ◌∷◌, Option, none, some, Bool, true, false, not, ◌==◌, ◌&&◌, ◌||◌,
  ltb, leb, eqb, if◌then◌else◌, length, is_empty, contains, codes, has_prefix, map, chomp, strip,
  lower_text, replace_from,
}
use safe_cloud.Db.{ScannerConfig}

-- The `ScannerConfigError`s, by what they say.
pub data ConfigError : Type 0 where
  command_not_array command_not_texts too_many_arguments : ConfigError
  argument_too_long argument_characters : String → ConfigError
  parser_unknown : String → ConfigError
  image_required image_characters env_not_object env_key env_value : ConfigError
  name_required slug_malformed timeout_range cpu_range memory_range : ConfigError

-- A check passes its value on, refuses it, or ends with another exception.
pub data Validated (A : Type 0) : Type 0 where
  valid : A → Validated A
  invalid : ConfigError → Validated A
  crashed : Validated A

unfoldable pub and_then : {A B : Type 0} → Validated A → (A → Validated B) → Validated B
and_then (valid a) f = f a
and_then (invalid e) f = invalid e
and_then crashed f = crashed

-- A member of a JSON array or object.
pub data Atom : Type 0 where
  text : String → Atom
  other : Atom

pub data Json : Type 0 where
  null scalar : Json
  array : List Atom → Json
  object : List (String × Atom) → Json

abbrev pub is_digit : ℕ → Bool
is_digit c = leb b'0' c && leb c b'9'

abbrev pub is_lower : ℕ → Bool
is_lower c = leb b'a' c && leb c b'z'

abbrev pub is_upper : ℕ → Bool
is_upper c = leb b'A' c && leb c b'Z'

abbrev pub is_one_of : ℕ → List ℕ → Bool
is_one_of c [] = false
is_one_of c (x ∷ xs) = eqb c x || is_one_of c xs

abbrev pub every : (ℕ → Bool) → List ℕ → Bool
every p [] = true
every p (c ∷ cs) = p c && every p cs

-- The characters of `_SAFE_ARG_RE`.
unfoldable pub is_safe_char : ℕ → Bool
is_safe_char c = is_upper c || is_lower c || is_digit c || is_one_of c (codes "_./=:,-+ ")

-- `_PLACEHOLDER_RE.sub("", arg)`, with how many code points of a placeholder are left to skip.
unfoldable pub strip_placeholders : ℕ → List ℕ → List ℕ
strip_placeholders skip [] = []
strip_placeholders (suc skip) (c ∷ cs) = strip_placeholders skip cs
strip_placeholders zero (c ∷ cs) =
    let file = strip_placeholders 7 cs in
    let output = strip_placeholders 9 cs in
    let rest = strip_placeholders zero cs in
    if has_prefix (c ∷ cs) (codes "{{FILE}}")
    then file
    else if has_prefix (c ∷ cs) (codes "{{OUTPUT}}")
    then output
    else c ∷ rest

unfoldable pub is_safe_arg : String → Bool
is_safe_arg arg = every is_safe_char (chomp (strip_placeholders 0 (codes arg)))

unfoldable pub texts_of : List Atom → Option (List String)
texts_of [] = some []
texts_of (text s ∷ xs) = elim (texts_of xs) [ none ↦ none | some ss ↦ some (s ∷ ss) ]
texts_of (other ∷ xs) = none

unfoldable pub check_args : List String → Option ConfigError
check_args [] = none
check_args (arg ∷ args) =
    let rest = check_args args in
    if ltb 512 (length (codes arg))
    then some (argument_too_long arg)
    else if is_safe_arg arg
    then rest
    else some (argument_characters arg)

abbrev pub accept : {A : Type 0} → A → Option ConfigError → Validated A
accept a none = valid a
accept a (some e) = invalid e

abbrev pub check_command : Option (List String) → Validated (List String)
check_command none = invalid command_not_texts
check_command (some args) =
    if ltb 64 (length args) then invalid too_many_arguments else accept args (check_args args)

unfoldable pub validate_scan_command : Json → Validated (List String)
validate_scan_command (array []) = invalid command_not_array
validate_scan_command (array (x ∷ xs)) = check_command (texts_of (x ∷ xs))
validate_scan_command _ = invalid command_not_array

unfoldable pub validate_result_parser : String → Validated String
validate_result_parser value =
    if contains value ("clamav_wrapper_json" ∷ "generic_exit_code" ∷ [])
    then valid value
    else invalid (parser_unknown value)

abbrev pub is_image_start : ℕ → Bool
is_image_start c = is_lower c || is_upper c || is_digit c

unfoldable pub is_image_char : ℕ → Bool
is_image_char c = is_image_start c || is_one_of c (codes "./_:-")

-- `^[a-zA-Z0-9][a-zA-Z0-9./_:-]*$`
unfoldable pub is_image : List ℕ → Bool
is_image [] = false
is_image (c ∷ cs) = is_image_start c && every is_image_char (chomp cs)

unfoldable pub validate_docker_image : String → Validated String
validate_docker_image value =
    if strip value == ""
    then invalid image_required
    else if is_image (codes (strip value))
    then valid (strip value)
    else invalid image_characters

-- `^[A-Z][A-Z0-9_]*$`
unfoldable pub is_env_key : List ℕ → Bool
is_env_key [] = false
is_env_key (c ∷ cs) = is_upper c && every (λ d. is_upper d || is_digit d || eqb d b'_') (chomp cs)

unfoldable pub env_items : List (String × Atom) → Validated (List (String × String))
env_items [] = valid []
env_items ((k, text v) ∷ items) =
    let rest = env_items items in
    if is_env_key (codes k) then and_then rest (λ ds. valid ((k, v) ∷ ds)) else invalid env_key
env_items ((k, other) ∷ items) = if is_env_key (codes k) then invalid env_value else invalid env_key

unfoldable pub validate_env_vars : Json → Validated (List (String × String))
validate_env_vars null = valid []
validate_env_vars (object items) = env_items items
validate_env_vars _ = invalid env_not_object

abbrev pub is_slug_start : ℕ → Bool
is_slug_start c = is_lower c || is_digit c

-- `^[a-z0-9][a-z0-9-]{1,62}$`
unfoldable pub is_slug : List ℕ → Bool
is_slug [] = false
is_slug (c ∷ cs) =
    is_slug_start c
    && every (λ d. is_slug_start d || eqb d b'-') (chomp cs)
    && leb 1 (length (chomp cs))
    && leb (length (chomp cs)) 62

-- What is asked of a float: the two comparisons, and the hundredths that the column rounds it to.
pub record Float : Type 0 where
  pub at_least_0_1 : Bool
  pub at_most_8 : Bool
  pub hundredths : ℕ

-- The form as the panel reads it; the numbers are what `int` and `float` make of it, `none` where
-- they raise.
pub record ScannerForm : Type 0 where
  pub name : String
  pub slug : String
  pub enabled : Bool
  pub docker_image : String
  pub scan_command : Json
  pub env_vars : Json
  pub result_parser : String
  pub timeout_seconds : Option ℕ
  pub cpu_limit : Option Float
  pub memory_limit_mb : Option ℕ

-- `int` of a field and its range; a negative number is out of every range here, as zero is.
abbrev pub in_range : ℕ → ℕ → ConfigError → Option ℕ → Validated ℕ
in_range low high e none = crashed
in_range low high e (some n) = if leb low n && leb n high then valid n else invalid e

abbrev pub cpu_range_check : Option Float → Validated ℕ
cpu_range_check none = crashed
cpu_range_check (some f) =
    if f.at_least_0_1 && f.at_most_8 then valid f.hundredths else invalid cpu_range

abbrev pub check_name : String → Validated String
check_name name = if strip name == "" then invalid name_required else valid (strip name)

abbrev pub check_slug : String → Validated String
check_slug slug =
    if is_slug (codes (lower_text (strip slug)))
    then valid (lower_text (strip slug))
    else invalid slug_malformed

-- The cleaned configuration, as a row without its id.
unfoldable pub validate_scanner_config : String → ScannerForm → Validated ScannerConfig
validate_scanner_config id form = and_then (check_name form.name) (λ name.
    and_then (check_slug form.slug) (λ slug.
      and_then (in_range 1 3600 timeout_range form.timeout_seconds) (λ timeout_seconds.
        and_then (cpu_range_check form.cpu_limit) (λ cpu_limit.
          and_then (in_range 64 16384 memory_range form.memory_limit_mb) (λ memory_limit_mb.
            and_then (validate_docker_image form.docker_image) (λ docker_image.
              and_then (validate_scan_command form.scan_command) (λ scan_command.
                and_then (validate_env_vars form.env_vars) (λ env_vars.
                  and_then (validate_result_parser form.result_parser) (λ result_parser.
                    valid (record {
                      id = id;
                      name = name;
                      slug = slug;
                      enabled = form.enabled;
                      docker_image = docker_image;
                      scan_command = scan_command;
                      env_vars = env_vars;
                      result_parser = result_parser;
                      timeout_seconds = timeout_seconds;
                      cpu_limit = cpu_limit;
                      memory_limit_mb = memory_limit_mb;
                    }))))))))))

-- A rendered argument, as code points.
unfoldable pub render_argument : (file_path output_path : String) → String → List ℕ
render_argument file_path output_path arg =
    replace_from 0 (codes "{{OUTPUT}}") (codes output_path)
      (replace_from 0 (codes "{{FILE}}") (codes file_path) (codes arg))

unfoldable pub render_command_preview :
    List String → (file_path output_path : String) → List (List ℕ)
render_command_preview template file_path output_path =
    map (render_argument file_path output_path) template
