-- ===== src/Validation/Safety.antt =====
-- What a configuration that passes the checks is like.
use safe_cloud.Validation.Checks.{
  valid-injective, Gives-valid, Gives-and_then, if-valid, in_range-bounds,
  validate_docker_image-All, validate_scan_command-IsCommand, validate_env_vars-keys, IsImageChar,
  IsCommand,
}
use safe_cloud.Prelude.{
  String, Bool, true, false, ◌≡◌, ◌≢◌, subst, ◌⊎◌, ◌≤◌, refl, All, ◌==◌, arith, eq_iff, codes,
  if◌then◌else◌, strip,
}
use safe_cloud.Db.{ScannerConfig}
use safe_cloud.Validation.{
  ConfigError, valid, invalid, validate_result_parser, is_env_key, is_slug, ScannerForm, check_name,
  check_slug, validate_scanner_config,
}

-- What the worker and the playbooks may rely on in a row of `scanners`.
pub record IsSafeConfig (c : ScannerConfig) : Type 0 where
  pub named : c.name ≢ ""
  pub slug : is_slug (codes c.slug) ≡ true
  pub timeout : (1 ≤ c.timeout_seconds) × (c.timeout_seconds ≤ 3600)
  pub memory : (64 ≤ c.memory_limit_mb) × (c.memory_limit_mb ≤ 16384)
  pub image : All IsImageChar (codes c.docker_image)
  pub command : IsCommand c.scan_command
  pub keys : All (λ v. is_env_key (codes v.0) ≡ true) c.env_vars
  pub parser : (c.result_parser ≡ "clamav_wrapper_json") ⊎ (c.result_parser ≡ "generic_exit_code")

check_name-named : (value name : String) → check_name value ≡ valid name → name ≢ ""
check_name-named value name h = go (strip value == "") refl h
  where
    go :
        (b : Bool)
        → (strip value == "") ≡ b
        → (if b then invalid ConfigError.name_required else valid (strip value)) ≡ valid name
        → name ≢ ""
    go true e h = cc
    go false e h =
        subst (λ t. t ≢ "") (valid-injective _ _ h) (λ q. ground (arith, eq_iff (strip value) ""))

check_slug-slug :
    (value slug : String) → check_slug value ≡ valid slug → is_slug (codes slug) ≡ true
check_slug-slug value slug h =
    let (y, s) = if-valid _ _ _ _ h in subst (λ t. is_slug (codes t) ≡ true) s y

validate_result_parser-known :
    (value parser : String)
    → validate_result_parser value ≡ valid parser
    → (parser ≡ "clamav_wrapper_json") ⊎ (parser ≡ "generic_exit_code")
unfolding validate_result_parser
validate_result_parser-known value parser h =
    let (y, s) = if-valid _ _ _ _ h in
    subst (λ t. (t ≡ "clamav_wrapper_json") ⊎ (t ≡ "generic_exit_code")) s
      (ground (arith, eq_iff "clamav_wrapper_json" value, eq_iff "generic_exit_code" value))

-- A configuration that passes the checks has a name, a well-formed slug, a timeout of 1 to 3600 seconds, a memory limit of 64 to 16384 MB, an image's name and 1 to 64 arguments of at most 512 characters each that contain no character but letters, digits, the listed punctuation, the braces of placeholders and newlines, environment variables with UPPER_SNAKE_CASE names, and one of the two result parsers; and it has the id it was checked for.
pub validate_scanner_config-IsSafeConfig :
    (id : String) (form : ScannerForm) (c : ScannerConfig)
    → validate_scanner_config id form ≡ valid c
    → IsSafeConfig c × (c.id ≡ id)
unfolding validate_scanner_config
validate_scanner_config-IsSafeConfig id form = Gives-and_then _ _ (λ name e1.
    Gives-and_then _ _ (λ slug e2. Gives-and_then _ _ (λ timeout_seconds e3.
      Gives-and_then _ _ (λ cpu_limit e4. Gives-and_then _ _ (λ memory_limit_mb e5.
        Gives-and_then _ _ (λ docker_image e6. Gives-and_then _ _ (λ scan_command e7.
          Gives-and_then _ _ (λ env_vars e8. Gives-and_then _ _ (λ result_parser e9.
            Gives-valid _ _ (
              record {
                named = check_name-named form.name name e1;
                slug = check_slug-slug form.slug slug e2;
                timeout = in_range-bounds _ _ _ form.timeout_seconds _ e3;
                memory = in_range-bounds _ _ _ form.memory_limit_mb _ e5;
                image = validate_docker_image-All form.docker_image _ e6;
                command = validate_scan_command-IsCommand form.scan_command _ e7;
                keys = validate_env_vars-keys form.env_vars _ e8;
                parser = validate_result_parser-known form.result_parser _ e9;
              },
              refl,
            ))))))))))
