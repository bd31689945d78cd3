-- ===== src/Admin/Invariant/Rows.antt =====
-- The invariant, table by table.
use safe_cloud.Prelude.{
  ℕ, String, List, [], ◌∷◌, ◌++◌, Bool, Bool-cases, true, false, not, inl, inr, ◌==◌, ◌+◌, ◌≤◌, ◌≡◌,
  ◌≢◌, refl, sym, ap, ◌∙◌, arith, eq_iff, All, select, map, if◌then◌else◌,
}
use safe_cloud.Prelude.Pairs.{
  Apart, All-append, All-select, All-map, Apart-append, Apart-select, Apart-map, All-top,
}
use safe_cloud.Db.{ScannerConfig, Profile}
use safe_cloud.Validation.Safety.{IsSafeConfig}
use safe_cloud.Admin.Tables.{ApiClient}
use safe_cloud.Admin.Config.{
  profile_taken, update_profiles, clear_default, make_default, new_profile, replace_scanner, unpin,
}

abbrev pub OtherProfile : Profile → Profile → Type 0
OtherProfile p q = p.id ≢ q.id

-- Different keys, and different hashes.
abbrev pub OtherClient : ApiClient → ApiClient → Type 0
OtherClient c d = (c.id ≢ d.id) × (c.key_hash ≢ d.key_hash)

abbrev bit : Bool → ℕ
bit true = 1
bit false = 0

-- How many profiles are the default.
abbrev pub defaults : List Profile → ℕ
defaults [] = 0
defaults (p ∷ ps) = bit p.is_default + defaults ps

pub record IsWell (scanners : List ScannerConfig) (profiles : List Profile)
    (clients : List ApiClient) : Type 0 where
  pub scanners_safe : All IsSafeConfig scanners
  pub profiles_apart : Apart OtherProfile profiles
  pub one_default : defaults profiles ≤ 1
  pub clients_apart : Apart OtherClient clients

module _ {A : Type 0} (P : A → Type 0) where
  pub if-both : (b : Bool) (x y : A) → P x → P y → P (if b then x else y)
  if-both true x y h k = h
  if-both false x y h k = k

-- Profiles.

taken-OtherProfile :
    (id slug : String) (row : Profile) (ps : List Profile)
    → row.id ≡ id
    → profile_taken id slug ps ≡ false
    → All (λ p. OtherProfile p row) ps
unfolding profile_taken
taken-OtherProfile id slug row [] e h = tt
taken-OtherProfile id slug row (p ∷ ps) e h =
    ((λ same. ground (arith, eq_iff p.id id)), taken-OtherProfile id slug row ps e (ground arith))

defaults-append :
    (ps : List Profile) (p : Profile) → defaults (ps ++ p ∷ []) ≡ defaults ps + bit p.is_default
defaults-append [] p = omega arith
defaults-append (q ∷ ps) p = omega (arith, defaults-append ps p)

id-update :
    (id : String) (f : Profile → Profile) (p : Profile)
    → ((q : Profile) → (f q).id ≡ q.id)
    → (if p.id == id then f p else p).id ≡ p.id
id-update id f p k = if-both (λ q. q.id ≡ p.id) (p.id == id) (f p) p (k p) refl

pub update_profiles-OtherProfile :
    (id : String) (f : Profile → Profile) (ps : List Profile)
    → ((q : Profile) → (f q).id ≡ q.id)
    → Apart OtherProfile ps
    → Apart OtherProfile (update_profiles id f ps)
update_profiles-OtherProfile id f ps k h =
    Apart-map OtherProfile (λ p. Unit) _ ps
      (λ p q _ _ apart same. apart (sym (id-update id f p k) ∙ (same ∙ id-update id f q k)))
      (All-top ps) h

clear-OtherProfile :
    (ps : List Profile) → Apart OtherProfile ps → Apart OtherProfile (map clear_default ps)
clear-OtherProfile ps h =
    Apart-map OtherProfile (λ p. Unit) _ ps (λ p q _ _ apart. apart) (All-top ps) h

defaults-clear : (ps : List Profile) → defaults (map clear_default ps) ≡ 0
defaults-clear [] = refl
defaults-clear (p ∷ ps) = omega (arith, defaults-clear ps)

pub defaults-update :
    (id : String) (f : Profile → Profile) (ps : List Profile)
    → ((q : Profile) → (f q).is_default ≡ q.is_default)
    → defaults (update_profiles id f ps) ≡ defaults ps
defaults-update id f [] k = refl
defaults-update id f (p ∷ ps) k = omega (
  arith,
  ap bit (if-both (λ q. q.is_default ≡ p.is_default) (p.id == id) (f p) p (k p) refl),
  defaults-update id f ps k,
)

make-none :
    (id : String) (p : Profile) (ps : List Profile)
    → p.id ≡ id
    → All (OtherProfile p) ps
    → defaults (update_profiles id make_default ps) ≡ defaults ps
make-none id p [] e h = refl
make-none id p (q ∷ ps) e h = elim (Bool-cases (q.id == id)) [
  | inl same ↦ absurd (h.0 (e ∙ sym ((eq_iff q.id id).0 same)))
  | inr other ↦ rw other (omega (arith, make-none id p ps e h.1))
]

make-one :
    (id : String) (ps : List Profile)
    → Apart OtherProfile ps
    → defaults ps ≡ 0
    → defaults (update_profiles id make_default ps) ≤ 1
make-one id [] h z = omega arith
make-one id (p ∷ ps) h z = elim (Bool-cases (p.id == id)) [
  | inl same ↦ rw same (omega (arith, make-none id p ps ((eq_iff p.id id).0 same) h.0, z))
  | inr other ↦ rw other (omega (arith, z, make-one id ps h.1 (omega (arith, z))))
]

defaults-select : (t : Profile → Bool) (ps : List Profile) → defaults (select t ps) ≤ defaults ps
defaults-select t [] = omega arith
defaults-select t (p ∷ ps) = elim (Bool-cases (t p)) [
  | inl kept ↦ rw kept (omega (arith, defaults-select t ps))
  | inr gone ↦ rw gone (omega (arith, defaults-select t ps))
]

-- The changes of the three tables that the panel makes.

pub add_profile-IsWell :
    {scanners : List ScannerConfig} {clients : List ApiClient} (ps : List Profile)
    (id name slug : String) (enabled : Bool) (policy : String)
    → profile_taken id slug ps ≡ false
    → IsWell scanners ps clients
    → IsWell scanners (ps ++ new_profile id name slug enabled policy ∷ []) clients
unfolding new_profile
add_profile-IsWell ps id name slug enabled policy free h = record {
  scanners_safe = h.scanners_safe;
  profiles_apart =
      Apart-append OtherProfile ps _
        (taken-OtherProfile id slug (new_profile id name slug enabled policy) ps refl free)
        h.profiles_apart;
  one_default =
      omega (arith, defaults-append ps (new_profile id name slug enabled policy), h.one_default);
  clients_apart = h.clients_apart;
}

pub update_profile-IsWell :
    {scanners : List ScannerConfig} {clients : List ApiClient} (ps : List Profile) (id : String)
    (f : Profile → Profile)
    → ((q : Profile) → (f q).id ≡ q.id)
    → ((q : Profile) → (f q).is_default ≡ q.is_default)
    → IsWell scanners ps clients
    → IsWell scanners (update_profiles id f ps) clients
update_profile-IsWell ps id f k d h = record {
  scanners_safe = h.scanners_safe;
  profiles_apart = update_profiles-OtherProfile id f ps k h.profiles_apart;
  one_default = omega (arith, defaults-update id f ps d, h.one_default);
  clients_apart = h.clients_apart;
}

pub set_default-IsWell :
    {scanners : List ScannerConfig} {clients : List ApiClient} (ps : List Profile) (id : String)
    → IsWell scanners ps clients
    → IsWell scanners (update_profiles id make_default (map clear_default ps)) clients
set_default-IsWell ps id h =
    let cleared = clear-OtherProfile ps h.profiles_apart in
    record {
      scanners_safe = h.scanners_safe;
      profiles_apart = update_profiles-OtherProfile id make_default _ (λ q. refl) cleared;
      one_default = make-one id _ cleared (defaults-clear ps);
      clients_apart = h.clients_apart;
    }

pub delete_profile-IsWell :
    {scanners : List ScannerConfig} {clients : List ApiClient} (ps : List Profile) (id : String)
    → IsWell scanners ps clients
    → IsWell scanners (select (λ p. not (p.id == id)) ps) (map (unpin id) clients)
delete_profile-IsWell {clients = clients} ps id h = record {
  scanners_safe = h.scanners_safe;
  profiles_apart = Apart-select OtherProfile _ ps h.profiles_apart;
  one_default = omega (arith, defaults-select (λ p. not (p.id == id)) ps, h.one_default);
  clients_apart =
      Apart-map OtherClient (λ c. Unit) _ clients (λ c d _ _ apart. apart) (All-top clients)
        h.clients_apart;
}

pub add_scanner-IsWell :
    {profiles : List Profile} {clients : List ApiClient} (cs : List ScannerConfig)
    (row : ScannerConfig)
    → IsSafeConfig row
    → IsWell cs profiles clients
    → IsWell (cs ++ row ∷ []) profiles clients
add_scanner-IsWell cs row safe h = record {
  scanners_safe = All-append IsSafeConfig cs row h.scanners_safe safe;
  profiles_apart = h.profiles_apart;
  one_default = h.one_default;
  clients_apart = h.clients_apart;
}

pub replace_scanner-IsWell :
    {profiles : List Profile} {clients : List ApiClient} (cs : List ScannerConfig)
    (row : ScannerConfig)
    → IsSafeConfig row
    → IsWell cs profiles clients
    → IsWell (replace_scanner row cs) profiles clients
replace_scanner-IsWell cs row safe h = record {
  scanners_safe =
      All-map IsSafeConfig IsSafeConfig _ cs
        (λ c k. if-both IsSafeConfig (c.id == row.id) row c safe k) h.scanners_safe;
  profiles_apart = h.profiles_apart;
  one_default = h.one_default;
  clients_apart = h.clients_apart;
}

pub delete_scanner-IsWell :
    {profiles : List Profile} {clients : List ApiClient} (cs : List ScannerConfig) (id : String)
    → IsWell cs profiles clients
    → IsWell (select (λ c. not (c.id == id)) cs) profiles clients
delete_scanner-IsWell cs id h = record {
  scanners_safe = All-select IsSafeConfig _ cs h.scanners_safe;
  profiles_apart = h.profiles_apart;
  one_default = h.one_default;
  clients_apart = h.clients_apart;
}

pub clients-IsWell :
    {scanners : List ScannerConfig} {profiles : List Profile} {cs ds : List ApiClient}
    → (Apart OtherClient cs → Apart OtherClient ds)
    → IsWell scanners profiles cs
    → IsWell scanners profiles ds
clients-IsWell f h = record {
  scanners_safe = h.scanners_safe;
  profiles_apart = h.profiles_apart;
  one_default = h.one_default;
  clients_apart = f h.clients_apart;
}
