-- ===== src/Admin/Tables.antt =====
-- The panel's state, and the audit log and the settings of api/db.py.
use safe_cloud.Prelude.{ℕ, String, List, [], ◌∷◌, ◌++◌, Option, Bool, ◌==◌, if◌then◌else◌}
use safe_cloud.Exec.{Exec, Result, gets, modify, ◌>>◌}
use safe_cloud.Db.{World, Db, connect}

-- A row of `api_clients`, without its description and owner.
pub record ApiClient : Type 0 where
  pub id : String
  pub name : String
  pub enabled : Bool
  pub key_prefix : String
  pub key_hash : String
  pub scanner_profile_id : Option String
  pub permissions : List String
  pub created_at : ℕ
  pub last_used_at : Option ℕ
  pub revoked_at : Option ℕ

pub record AuditEntry : Type 0 where
  pub actor : String
  pub action : String
  pub object_type : String
  pub object_id : Option String
  pub ip_address : Option String

-- Python's `int`.
pub data ℤ : Type 0 where
  pos negsuc : ℕ → ℤ

-- A value of the settings' JSON object.
pub data Value : Type 0 where
  number : ℤ → Value
  flag : Bool → Value
  texts : List String → Value

pub record Panel : Type 0 where
  pub world : World
  pub clients : List ApiClient
  pub settings : List (String × Value)
  pub audit : List AuditEntry
  pub new_api_key : Option String

abbrev pub Admin : Type 0 → Type 0
Admin A = Exec Panel A

abbrev put_world : {A : Type 0} → Panel → Result A × World → Result A × Panel
put_world s (r, w) = (r, record s { world = w })

-- A call that the panel shares with the worker.
unfoldable pub within : {A : Type 0} → Db A → Admin A
within m s = put_world s (m s.world)

-- A transaction of the panel's own.
unfoldable pub transact : (Panel → Panel) → Admin (Unit {0})
transact f = do within connect; modify f

unfoldable pub read : {A : Type 0} → (Panel → A) → Admin A
read f = do within connect; gets f

unfoldable pub record_audit : AuditEntry → Admin (Unit {0})
record_audit entry = transact (λ s. record s { audit = s.audit ++ entry ∷ [] })

unfoldable pub set_value : String → Value → List (String × Value) → List (String × Value)
set_value k v [] = (k, v) ∷ []
set_value k v ((j, u) ∷ rest) =
    let more = set_value k v rest in if j == k then (k, v) ∷ rest else (j, u) ∷ more

-- `settings || partial`: the fields that `partial` has, and the others.
unfoldable pub merge : List (String × Value) → List (String × Value) → List (String × Value)
merge settings [] = settings
merge settings ((k, v) ∷ partial) = merge (set_value k v settings) partial

unfoldable pub get_system_settings : Admin (List (String × Value))
get_system_settings = read (λ s. s.settings)

unfoldable pub update_system_settings : List (String × Value) → Admin (Unit {0})
update_system_settings partial = transact (λ s. record s { settings = merge s.settings partial })

set_policy : String → String → List (String × String) → List (String × String)
set_policy category policy [] = []
set_policy category policy ((c, p) ∷ rest) =
    (if c == category then (c, policy) else (c, p)) ∷ set_policy category policy rest

unfoldable pub set_encrypted_policy : String → String → Admin (Unit {0})
unfolding set_policy
set_encrypted_policy category policy = transact (λ s. record s {
  world = record s.world {
    encrypted_policies = set_policy category policy s.world.encrypted_policies;
  };
})
