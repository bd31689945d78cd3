-- ===== src/Admin/Config.antt =====
-- The tables of scanners and profiles. The key of a new row is drawn by the database and is an
-- argument here; a statement that breaks a UNIQUE or REFERENCES constraint raises and changes nothing.
use safe_cloud.Prelude.{
  ℕ, suc, String, List, [], ◌∷◌, ◌++◌, Option, none, some, Bool, true, false, not, ◌==◌, ◌&&◌, ◌||◌,
  if◌then◌else◌, map, select, contains, is_empty,
}
use safe_cloud.Exec.{db_error, pure, raise, gets, modify, ◌>>=◌, ◌>>◌}
use safe_cloud.Db.{Scan, ScanResult, ScannerConfig, Profile, Membership, World, Db, connect, query}
use safe_cloud.Admin.Tables.{ApiClient, Admin, transact}

unfoldable pub find_scanner : String → List ScannerConfig → Option ScannerConfig
find_scanner id [] = none
find_scanner id (c ∷ cs) = let rest = find_scanner id cs in if c.id == id then some c else rest

unfoldable pub get_scanner : String → Db (Option ScannerConfig)
get_scanner scanner_id = query (λ w. find_scanner scanner_id w.scanners)

-- A statement that a constraint may refuse.
unfoldable pub checked : (World → Bool) → (World → World) → Db (Unit {0})
checked allowed f = do connect; fine ← gets allowed; if fine then modify f else raise db_error

unfoldable pub taken : String → String → List ScannerConfig → Bool
taken id slug [] = false
taken id slug (c ∷ cs) = c.id == id || c.slug == slug || taken id slug cs

-- The primary key and `slug UNIQUE`.
unfoldable pub create_scanner : ScannerConfig → Db (Unit {0})
create_scanner row =
    checked (λ w. not (taken row.id row.slug w.scanners))
      (λ w. record w { scanners = w.scanners ++ row ∷ [] })

slug_of_other : ScannerConfig → List ScannerConfig → Bool
slug_of_other row [] = false
slug_of_other row (c ∷ cs) = (not (c.id == row.id) && c.slug == row.slug) || slug_of_other row cs

abbrev pub replace_scanner : ScannerConfig → List ScannerConfig → List ScannerConfig
replace_scanner row = map (λ c. if c.id == row.id then row else c)

-- Every column is set; the row's id is that of the row to change.
unfoldable pub update_scanner : ScannerConfig → Db (Unit {0})
unfolding slug_of_other
update_scanner row =
    checked (λ w. not (slug_of_other row w.scanners))
      (λ w. record w { scanners = replace_scanner row w.scanners })

abbrev pub unlink : String → Option String → Option String
unlink id none = none
unlink id (some k) = if k == id then none else some k

abbrev pub forget_scanner : String → ScanResult → ScanResult
forget_scanner id r = record r { scanner_id = unlink id r.scanner_id }

-- `ON DELETE CASCADE` in the profiles' scanners, `ON DELETE SET NULL` in the results.
unfoldable pub delete_scanner : String → Db (Unit {0})
delete_scanner scanner_id = do
  connect
  modify (λ w. record w {
    scanners = select (λ c. not (c.id == scanner_id)) w.scanners;
    memberships = select (λ m. not (m.scanner_id == scanner_id)) w.memberships;
    results = map (forget_scanner scanner_id) w.results;
  })

unfoldable pub profile_taken : String → String → List Profile → Bool
profile_taken id slug [] = false
profile_taken id slug (p ∷ ps) = p.id == id || p.slug == slug || profile_taken id slug ps

unfoldable pub new_profile :
    (id name slug : String) → (enabled : Bool) → (policy : String) → Profile
new_profile id name slug enabled policy = record {
  id = id;
  name = name;
  slug = slug;
  enabled = enabled;
  aggregation_policy = policy;
  is_default = false;
}

unfoldable pub create_profile :
    (id name slug : String) → (enabled : Bool) → (policy : String) → Db Profile
create_profile id name slug enabled policy =
    checked (λ w. not (profile_taken id slug w.profiles))
      (λ w. record w { profiles = w.profiles ++ new_profile id name slug enabled policy ∷ [] })
    >> pure (new_profile id name slug enabled policy)

abbrev pub update_profiles : String → (Profile → Profile) → List Profile → List Profile
update_profiles id f = map (λ p. if p.id == id then f p else p)

unfoldable pub update_profile :
    (id name : String) → (enabled : Bool) → (policy : String) → Db (Unit {0})
update_profile id name enabled policy = do
  connect
  modify (λ w. record w {
    profiles =
        update_profiles id
          (λ p. record p { name = name; enabled = enabled; aggregation_policy = policy })
          w.profiles;
  })

abbrev pub clear_default : Profile → Profile
clear_default p = record p { is_default = false }

abbrev pub make_default : Profile → Profile
make_default p = record p { is_default = true }

-- Both statements are one transaction.
unfoldable pub set_default_profile : String → Db (Unit {0})
set_default_profile profile_id = do
  connect
  modify (λ w. record w {
    profiles = update_profiles profile_id make_default (map clear_default w.profiles);
  })

abbrev pub unlink_scan : String → Scan → Scan
unlink_scan id r = record r {
  info = record r.info { scanner_profile_id = unlink id r.info.scanner_profile_id };
}

abbrev pub unpin : String → ApiClient → ApiClient
unpin id c = record c { scanner_profile_id = unlink id c.scanner_profile_id }

-- `ON DELETE CASCADE` in the profile's scanners, `ON DELETE SET NULL` in the scans and API clients.
unfoldable pub delete_profile : String → Admin (Unit {0})
delete_profile profile_id = transact (λ s. record s {
  world = record s.world {
    profiles = select (λ p. not (p.id == profile_id)) s.world.profiles;
    memberships = select (λ m. not (m.profile_id == profile_id)) s.world.memberships;
    scans = map (unlink_scan profile_id) s.world.scans;
  };
  clients = map (unpin profile_id) s.clients;
})

-- `enumerate`
unfoldable pub numbered : String → ℕ → List String → List Membership
numbered profile_id n [] = []
numbered profile_id n (id ∷ ids) =
    record { profile_id = profile_id; scanner_id = id; order_index = n }
    ∷ numbered profile_id (suc n) ids

unfoldable pub all_scanners : List ScannerConfig → List String → Bool
all_scanners scanners [] = true
all_scanners scanners (id ∷ ids) = elim (find_scanner id scanners) [
  | none ↦ false
  | some c ↦ all_scanners scanners ids
]

unfoldable pub distinct : List String → Bool
distinct [] = true
distinct (id ∷ ids) = not (contains id ids) && distinct ids

unfoldable pub has_profile : String → List Profile → Bool
has_profile id [] = false
has_profile id (p ∷ ps) = p.id == id || has_profile id ps

-- The keys that the inserted rows refer to, and the primary key of the table.
unfoldable pub may_set : String → List String → World → Bool
may_set profile_id ids w =
    is_empty ids
    || (has_profile profile_id w.profiles && all_scanners w.scanners ids && distinct ids)

unfoldable pub put_members : String → List String → World → World
put_members profile_id ids w = record w {
  memberships =
      select (λ m. not (m.profile_id == profile_id)) w.memberships ++ numbered profile_id 0 ids;
}

-- The delete and the inserts are one transaction.
unfoldable pub set_profile_scanners : String → List String → Db (Unit {0})
set_profile_scanners profile_id ids = checked (may_set profile_id ids) (put_members profile_id ids)
