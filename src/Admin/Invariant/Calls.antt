-- ===== src/Admin/Invariant/Calls.antt =====
-- The calls of api/db.py that the panel makes keep the invariant.
use safe_cloud.Prelude.{
  String, List, [], ◌∷◌, Option, none, some, Bool, true, false, not, ◌≡◌, refl, if◌then◌else◌,
}
use safe_cloud.Prelude.Pairs.{Apart}
use safe_cloud.Exec.{db_error, pure, raise, gets, modify, ◌>>=◌}
use safe_cloud.Exec.Triple.{Keeps, Keeps-pure, Keeps-gets, Keeps-modify, Keeps-bind}
use safe_cloud.Db.{
  ScanInfo, ScannerConfig, World, Db, connect, query, get_profile, get_scan, create_scan, execute,
  get_encrypted_policies,
}
use safe_cloud.Validation.Safety.{IsSafeConfig}
use safe_cloud.Admin.Tables.{
  ApiClient, AuditEntry, Value, Panel, within, transact, read, record_audit, set_encrypted_policy,
  get_system_settings, update_system_settings,
}
use safe_cloud.Admin.Config.{
  checked, get_scanner, create_scanner, update_scanner, delete_scanner, create_profile,
  update_profile, set_default_profile, delete_profile, set_profile_scanners, put_members,
}
use safe_cloud.Admin.Keys.{
  may_pin, store_clients, change_clients, create_api_client, revoke_api_client,
  rotate_api_client_key, revoke_key, add_client,
}
use safe_cloud.Admin.Invariant.Rows.{
  IsWell, OtherClient, add_profile-IsWell, update_profile-IsWell, set_default-IsWell,
  delete_profile-IsWell, add_scanner-IsWell, replace_scanner-IsWell, delete_scanner-IsWell,
  clients-IsWell,
}
use safe_cloud.Admin.Invariant.KeyRows.{
  add_client-OtherClient, update_clients-OtherClient, rotate_client-OtherClient,
}

abbrev pub Inv : Panel → Type 0
Inv s = IsWell s.world.scanners s.world.profiles s.clients

-- The invariant of the tables that the worker has, too.
abbrev pub WorldInv : List ApiClient → World → Type 0
WorldInv clients w = IsWell w.scanners w.profiles clients

connect-Keeps : (clients : List ApiClient) → Keeps (WorldInv clients) connect
unfolding connect pure raise
connect-Keeps clients = record { run = λ w h. go w w.faults refl h }
  where
    go :
        (w : World) (fs : List Bool)
        → w.faults ≡ fs
        → WorldInv clients w
        → WorldInv clients (connect w).1
    go w [] e h = rw (e, connect) h
    go w (true ∷ fs) e h = rw (e, connect) h
    go w (false ∷ fs) e h = rw (e, connect) h

pub within-Keeps :
    {A : Type 0} (m : Db A)
    → ((clients : List ApiClient) → Keeps (WorldInv clients) m)
    → Keeps Inv (within m)
unfolding within
within-Keeps m k = record { run = λ s h. (k s.clients).run s.world h }

decided :
    (allowed : World → Bool) (f : World → World) (clients : List ApiClient)
    → ((w : World) → allowed w ≡ true → WorldInv clients w → WorldInv clients (f w))
    → Keeps (WorldInv clients) (gets allowed >>= λ fine. if fine then modify f else raise db_error)
unfolding gets modify raise ◌>>=◌
decided allowed f clients g = record { run = λ w h. go w (allowed w) refl h }
  where
    go :
        (w : World) (b : Bool)
        → allowed w ≡ b
        → WorldInv clients w
        → WorldInv clients ((if b then modify f else raise db_error) w).1
    go w true e h = g w e h
    go w false e h = h

checked-Keeps :
    (allowed : World → Bool) (f : World → World) (clients : List ApiClient)
    → ((w : World) → allowed w ≡ true → WorldInv clients w → WorldInv clients (f w))
    → Keeps (WorldInv clients) (checked allowed f)
unfolding checked
checked-Keeps allowed f clients g =
    Keeps-bind _ _ (connect-Keeps clients) (λ _. decided allowed f clients g)

pub transact-Keeps :
    (f : Panel → Panel) → ((s : Panel) → Inv s → Inv (f s)) → Keeps Inv (transact f)
unfolding transact
transact-Keeps f g = Keeps-bind _ _ (within-Keeps _ connect-Keeps) (λ _. Keeps-modify f g)

pub read-Keeps : {A : Type 0} (f : Panel → A) → Keeps Inv (read f)
unfolding read
read-Keeps f = Keeps-bind _ _ (within-Keeps _ connect-Keeps) (λ _. Keeps-gets f)

query-Keeps :
    {A : Type 0} (f : World → A) (clients : List ApiClient) → Keeps (WorldInv clients) (query f)
unfolding query
query-Keeps f clients = Keeps-bind _ _ (connect-Keeps clients) (λ _. Keeps-gets f)

execute-Keeps :
    (f : World → World) (clients : List ApiClient)
    → ((w : World) → WorldInv clients w → WorldInv clients (f w))
    → Keeps (WorldInv clients) (execute f)
unfolding execute
execute-Keeps f clients g = Keeps-bind _ _ (connect-Keeps clients) (λ _. Keeps-modify f g)

not-true : (b : Bool) → not b ≡ true → b ≡ false
not-true true h = cc
not-true false h = refl

pub record_audit-Keeps : (entry : AuditEntry) → Keeps Inv (record_audit entry)
unfolding record_audit
record_audit-Keeps entry = transact-Keeps _ (λ s h. h)

pub set_encrypted_policy-Keeps :
    (category policy : String) → Keeps Inv (set_encrypted_policy category policy)
unfolding set_encrypted_policy
set_encrypted_policy-Keeps category policy = transact-Keeps _ (λ s h. h)

pub update_system_settings-Keeps :
    (partial : List (String × Value)) → Keeps Inv (update_system_settings partial)
unfolding update_system_settings
update_system_settings-Keeps partial = transact-Keeps _ (λ s h. h)

pub get_system_settings-Keeps : Keeps Inv get_system_settings
unfolding get_system_settings
get_system_settings-Keeps = read-Keeps _

pub get_encrypted_policies-Keeps : Keeps Inv (within get_encrypted_policies)
unfolding get_encrypted_policies
get_encrypted_policies-Keeps = within-Keeps _ (query-Keeps _)

pub connect-Inv : Keeps Inv (within connect)
connect-Inv = within-Keeps _ connect-Keeps

pub get_scanner-Keeps : (id : String) → Keeps Inv (within (get_scanner id))
unfolding get_scanner
get_scanner-Keeps id = within-Keeps _ (query-Keeps _)

pub get_profile-Keeps : (id : String) → Keeps Inv (within (get_profile id))
unfolding get_profile
get_profile-Keeps id = within-Keeps _ (query-Keeps _)

pub get_scan-Keeps : (id : String) → Keeps Inv (within (get_scan id))
unfolding get_scan
get_scan-Keeps id = within-Keeps _ (query-Keeps _)

pub create_scan-Keeps : (id : String) (info : ScanInfo) → Keeps Inv (within (create_scan id info))
unfolding create_scan
create_scan-Keeps id info = within-Keeps _ (λ clients.
    Keeps-bind _ _ (Keeps-gets _)
      (λ now. Keeps-bind _ _ (execute-Keeps _ clients (λ w h. h)) (λ _. Keeps-pure _)))

pub create_scanner-Keeps :
    (row : ScannerConfig) → IsSafeConfig row → Keeps Inv (within (create_scanner row))
unfolding create_scanner
create_scanner-Keeps row safe =
    within-Keeps _
      (λ clients. checked-Keeps _ _ clients (λ w e h. add_scanner-IsWell w.scanners row safe h))

pub update_scanner-Keeps :
    (row : ScannerConfig) → IsSafeConfig row → Keeps Inv (within (update_scanner row))
unfolding update_scanner
update_scanner-Keeps row safe =
    within-Keeps _
      (λ clients. checked-Keeps _ _ clients (λ w e h. replace_scanner-IsWell w.scanners row safe h))

pub delete_scanner-Keeps : (id : String) → Keeps Inv (within (delete_scanner id))
unfolding delete_scanner
delete_scanner-Keeps id = within-Keeps _ (λ clients.
    Keeps-bind _ _ (connect-Keeps clients)
      (λ _. Keeps-modify _ (λ w h. delete_scanner-IsWell w.scanners id h)))

pub create_profile-Keeps :
    (id name slug : String) (enabled : Bool) (policy : String)
    → Keeps Inv (within (create_profile id name slug enabled policy))
unfolding create_profile
create_profile-Keeps id name slug enabled policy = within-Keeps _ (λ clients.
    Keeps-bind _ _
      (checked-Keeps _ _ clients
        (λ w e h. add_profile-IsWell w.profiles id name slug enabled policy (not-true _ e) h))
      (λ _. Keeps-pure _))

pub update_profile-Keeps :
    (id name : String) (enabled : Bool) (policy : String)
    → Keeps Inv (within (update_profile id name enabled policy))
unfolding update_profile
update_profile-Keeps id name enabled policy = within-Keeps _ (λ clients.
    Keeps-bind _ _ (connect-Keeps clients) (λ _.
      Keeps-modify _ (λ w h. update_profile-IsWell w.profiles id _ (λ q. refl) (λ q. refl) h)))

pub set_default_profile-Keeps : (id : String) → Keeps Inv (within (set_default_profile id))
unfolding set_default_profile
set_default_profile-Keeps id = within-Keeps _ (λ clients.
    Keeps-bind _ _ (connect-Keeps clients)
      (λ _. Keeps-modify _ (λ w h. set_default-IsWell w.profiles id h)))

pub delete_profile-Keeps : (id : String) → Keeps Inv (delete_profile id)
unfolding delete_profile
delete_profile-Keeps id = transact-Keeps _ (λ s h. delete_profile-IsWell s.world.profiles id h)

pub set_profile_scanners-Keeps :
    (id : String) (ids : List String) → Keeps Inv (within (set_profile_scanners id ids))
unfolding set_profile_scanners put_members
set_profile_scanners-Keeps id ids =
    within-Keeps _ (λ clients. checked-Keeps _ _ clients (λ w e h. h))

changed_clients :
    (f : Panel → Option (List ApiClient))
    → ((s : Panel) (ds : List ApiClient)
        → f s ≡ some ds
        → Apart OtherClient s.clients
        → Apart OtherClient ds)
    → Keeps Inv (gets f >>= λ changed. store_clients changed)
unfolding gets modify raise ◌>>=◌
changed_clients f g = record { run = λ s h. go s (f s) refl h }
  where
    go : (s : Panel) (o : Option (List ApiClient)) → f s ≡ o → Inv s → Inv (store_clients o s).1
    go s none e h = h
    go s (some ds) e h = clients-IsWell (g s ds e) h

change_clients-Keeps :
    (f : Panel → Option (List ApiClient))
    → ((s : Panel) (ds : List ApiClient)
        → f s ≡ some ds
        → Apart OtherClient s.clients
        → Apart OtherClient ds)
    → Keeps Inv (change_clients f)
unfolding change_clients
change_clients-Keeps f g = Keeps-bind _ _ connect-Inv (λ _. changed_clients f g)

pub create_api_client-Keeps : (row : ApiClient) → Keeps Inv (create_api_client row)
unfolding create_api_client
create_api_client-Keeps row = change_clients-Keeps _ (λ s ds e a. pinned s ds e a)
  where
    may :
        (b : Bool) (cs ds : List ApiClient)
        → (if b then add_client row cs else none) ≡ some ds
        → Apart OtherClient cs
        → Apart OtherClient ds
    may true cs ds e a = add_client-OtherClient row cs ds e a
    may false cs ds e a = cc

    pinned :
        (s : Panel) (ds : List ApiClient)
        → (if may_pin row.scanner_profile_id s.world.profiles
            then add_client row s.clients
            else none)
          ≡ some ds
        → Apart OtherClient s.clients
        → Apart OtherClient ds
    pinned s ds e a = may (may_pin row.scanner_profile_id s.world.profiles) s.clients ds e a

pub revoke_api_client-Keeps : (id : String) → Keeps Inv (revoke_api_client id)
unfolding revoke_api_client revoke_key
revoke_api_client-Keeps id =
    transact-Keeps _
      (λ s h. clients-IsWell (update_clients-OtherClient id _ s.clients (λ c. (refl, refl))) h)

pub rotate_api_client_key-Keeps :
    (id key_prefix key_hash : String) → Keeps Inv (rotate_api_client_key id key_prefix key_hash)
unfolding rotate_api_client_key
rotate_api_client_key-Keeps id key_prefix key_hash =
    change_clients-Keeps _
      (λ s ds e a. rotate_client-OtherClient id key_prefix key_hash s.clients ds e a)

pub ruleset calls = (
  record_audit-Keeps, set_encrypted_policy-Keeps, update_system_settings-Keeps,
  get_system_settings-Keeps, get_encrypted_policies-Keeps, connect-Inv, get_scanner-Keeps,
  get_profile-Keeps, get_scan-Keeps, create_scan-Keeps, delete_scanner-Keeps, create_profile-Keeps,
  update_profile-Keeps, set_default_profile-Keeps, delete_profile-Keeps, set_profile_scanners-Keeps,
  create_api_client-Keeps, revoke_api_client-Keeps, rotate_api_client_key-Keeps,
)
