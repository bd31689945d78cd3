-- ===== src/Admin/Keys.antt =====
-- The API clients' keys: api/db.py's table `api_clients` and api/auth_apikey.py.
use safe_cloud.Prelude.{
  ℕ, zero, suc, String, List, [], ◌∷◌, ◌++◌, map, Option, none, some, Bool, true, false, not, ◌==◌,
  ◌&&◌, ◌||◌, if◌then◌else◌, ◌+++◌,
}
use safe_cloud.Exec.{db_error, pure, raise, gets, modify, ◌>>=◌, ◌>>◌}
use safe_cloud.Db.{Profile, connect}
use safe_cloud.Api.{Checked, refuse, pass}
use safe_cloud.Admin.Config.{has_profile}
use safe_cloud.Admin.Tables.{ApiClient, Panel, Admin, within, transact, read}

abbrev pub update_clients : String → (ApiClient → ApiClient) → List ApiClient → List ApiClient
update_clients id f = map (λ c. if c.id == id then f c else c)

-- The primary key and `key_hash UNIQUE`.
unfoldable pub key_taken : String → String → List ApiClient → Bool
key_taken id key_hash [] = false
key_taken id key_hash (c ∷ cs) = c.id == id || c.key_hash == key_hash || key_taken id key_hash cs

unfoldable pub key_of_other : String → String → List ApiClient → Bool
key_of_other id key_hash [] = false
key_of_other id key_hash (c ∷ cs) =
    (not (c.id == id) && c.key_hash == key_hash) || key_of_other id key_hash cs

unfoldable pub add_client : ApiClient → List ApiClient → Option (List ApiClient)
add_client row clients =
    if key_taken row.id row.key_hash clients then none else some (clients ++ row ∷ [])

unfoldable pub revoke_key : ℕ → ApiClient → ApiClient
revoke_key now c = record c { enabled = false; revoked_at = some now }

unfoldable pub rotate_key : (key_prefix key_hash : String) → ApiClient → ApiClient
rotate_key key_prefix key_hash c = record c {
  key_prefix = key_prefix;
  key_hash = key_hash;
  enabled = true;
  revoked_at = none;
}

unfoldable pub touch_key : ℕ → ApiClient → ApiClient
touch_key now c = record c { last_used_at = some now }

unfoldable pub rotate_client :
    (id key_prefix key_hash : String) → List ApiClient → Option (List ApiClient)
rotate_client id key_prefix key_hash clients =
    if key_of_other id key_hash clients
    then none
    else some (update_clients id (rotate_key key_prefix key_hash) clients)

abbrev pub store_clients : Option (List ApiClient) → Admin (Unit {0})
store_clients none = raise db_error
store_clients (some cs) = modify (λ s. record s { clients = cs })

-- A statement on the table that a constraint may refuse.
unfoldable pub change_clients : (Panel → Option (List ApiClient)) → Admin (Unit {0})
change_clients f = do within connect; changed ← gets f; store_clients changed

-- The reference to a profile.
unfoldable pub may_pin : Option String → List Profile → Bool
may_pin none profiles = true
may_pin (some id) profiles = has_profile id profiles

unfoldable pub create_api_client : ApiClient → Admin (Unit {0})
create_api_client row = change_clients (λ s.
    if may_pin row.scanner_profile_id s.world.profiles then add_client row s.clients else none)

unfoldable pub revoke_api_client : String → Admin (Unit {0})
revoke_api_client client_id =
    transact
      (λ s. record s { clients = update_clients client_id (revoke_key s.world.clock) s.clients })

unfoldable pub rotate_api_client_key : (client_id key_prefix key_hash : String) → Admin (Unit {0})
rotate_api_client_key client_id key_prefix key_hash =
    change_clients (λ s. rotate_client client_id key_prefix key_hash s.clients)

unfoldable pub touch_api_client_last_used : String → Admin (Unit {0})
touch_api_client_last_used client_id =
    transact
      (λ s. record s { clients = update_clients client_id (touch_key s.world.clock) s.clients })

abbrev pub is_none : Option ℕ → Bool
is_none none = true
is_none (some n) = false

-- `WHERE key_hash = … AND enabled AND revoked_at IS NULL`
unfoldable pub client_by_hash : String → List ApiClient → Option ApiClient
client_by_hash key_hash [] = none
client_by_hash key_hash (c ∷ cs) =
    let rest = client_by_hash key_hash cs in
    if c.key_hash == key_hash && c.enabled && is_none c.revoked_at then some c else rest

unfoldable pub get_api_client_by_key_hash : String → Admin (Option ApiClient)
get_api_client_by_key_hash key_hash = read (λ s. client_by_hash key_hash s.clients)

module _ (sha256_hex : String → String) where
  unfoldable pub found_client : Option ApiClient → Admin (Checked ApiClient)
  found_client none = pure (refuse 401 "Invalid or revoked API key")
  found_client (some client) = do touch_api_client_last_used client.id; pure (pass client)

  unfoldable pub check_key : String → Admin (Checked ApiClient)
  check_key credentials =
      get_api_client_by_key_hash (sha256_hex credentials) >>= λ found. found_client found

  -- `sha256_hex` is `hash_api_key`, with SHA-256 of Python's library.
  unfoldable pub get_api_client : Option String → Admin (Checked ApiClient)
  get_api_client none = pure (refuse 401 "Missing API key")
  get_api_client (some credentials) =
      if credentials == "" then pure (refuse 401 "Missing API key") else check_key credentials

take_text : ℕ → String → String
take_text zero s = ""
take_text (suc n) String.[] = ""
take_text (suc n) (String.◌∷◌ c s) = String.◌∷◌ c (take_text n s)

-- The full key, from the secret that is drawn.
unfoldable pub full_key : String → String
full_key secret = "sk_live_" +++ secret

-- `full_key[: len(_KEY_PREFIX) + 8]`
unfoldable pub display_prefix : String → String
unfolding full_key take_text
display_prefix secret = take_text 16 (full_key secret)
