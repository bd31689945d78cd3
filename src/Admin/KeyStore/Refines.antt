-- ===== src/Admin/KeyStore/Refines.antt =====
-- The table refines the store of accounts, and a key's hash finds the account that has it in use.
use mathlib.Core.Option.{some-injective}
use safe_cloud.Prelude.{
  String, List, [], ◌∷◌, ◌++◌, none, some, Bool, true, false, ◌==◌, ◌&&◌, ◌≡◌, refl, sym, ap, subst,
  ◌∙◌, arith, eq_iff, eq_refl, All, if◌then◌else◌,
}
use safe_cloud.Prelude.Pairs.{Apart, Apart-map, All-top}
use safe_cloud.Admin.Tables.{ApiClient}
use safe_cloud.Admin.Keys.{
  update_clients, key_taken, key_of_other, revoke_key, rotate_key, touch_key, add_client,
  rotate_client, is_none, client_by_hash,
}
use safe_cloud.Admin.Invariant.Rows.{OtherClient}
use safe_cloud.Admin.Invariant.KeyRows.{
  add_client-OtherClient, update_clients-OtherClient, rotate_client-OtherClient,
}
use safe_cloud.Admin.KeyStore.Accounts.{
  Account, unknown, inactive, active, account_of, accounts, KeyCall, apply, change, meaning, retire,
  renew, accounts-update, accounts-append, accounts-unpin,
}

retired : (b : Bool) (g : String) → inactive ≡ retire (if b then active g else inactive)
retired true g = refl
retired false g = refl

renewed :
    {h : String} (b : Bool) (g : String) → active h ≡ renew h (if b then active g else inactive)
renewed true g = refl
renewed false g = refl

same_account : (b : Bool) (a : Account) → (if b then a else a) ≡ a
same_account true a = refl
same_account false a = refl

pub apply-accounts :
    (call : KeyCall) (cs ds : List ApiClient) (j : String)
    → apply call cs ≡ some ds
    → accounts ds j ≡ meaning call (accounts cs) j
unfolding apply add_client rotate_client revoke_key rotate_key touch_key
apply-accounts (KeyCall.create row) cs ds j h = go (key_taken row.id row.key_hash cs) refl h
  where
    go :
        (b : Bool)
        → key_taken row.id row.key_hash cs ≡ b
        → (if b then none else some (cs ++ row ∷ [])) ≡ some ds
        → accounts ds j ≡ change row.id (λ a. account_of row) (accounts cs) j
    go true e h = cc
    go false e h =
        subst (λ ds. accounts ds j ≡ change row.id (λ a. account_of row) (accounts cs) j)
          (some-injective _ _ h) (accounts-append row cs j e)
apply-accounts (KeyCall.revoke id now) cs ds j h =
    subst (λ ds. accounts ds j ≡ change id retire (accounts cs) j) (some-injective _ _ h)
      (accounts-update id (revoke_key now) retire cs j (λ c. refl) (λ c. retired _ _) refl)
apply-accounts (KeyCall.rotate id key_prefix key_hash) cs ds j h =
    go (key_of_other id key_hash cs) h
  where
    go :
        (b : Bool)
        → (if b then none else some (update_clients id (rotate_key key_prefix key_hash) cs))
          ≡ some ds
        → accounts ds j ≡ change id (renew key_hash) (accounts cs) j
    go true h = cc
    go false h =
        subst (λ ds. accounts ds j ≡ change id (renew key_hash) (accounts cs) j)
          (some-injective _ _ h)
          (accounts-update id (rotate_key key_prefix key_hash) (renew key_hash) cs j (λ c. refl)
            (λ c. renewed _ _) refl)
apply-accounts (KeyCall.touch id now) cs ds j h =
    subst (λ ds. accounts ds j ≡ accounts cs j) (some-injective _ _ h)
      (accounts-update id (touch_key now) (λ a. a) cs j (λ c. refl) (λ c. refl) refl
        ∙ same_account (id == j) _)
apply-accounts (KeyCall.profile_deleted id) cs ds j h =
    subst (λ ds. accounts ds j ≡ accounts cs j) (some-injective _ _ h) (accounts-unpin id cs j)

pub apply-OtherClient :
    (call : KeyCall) (cs ds : List ApiClient)
    → apply call cs ≡ some ds
    → Apart OtherClient cs
    → Apart OtherClient ds
unfolding apply revoke_key touch_key
apply-OtherClient (KeyCall.create row) cs ds h a = add_client-OtherClient row cs ds h a
apply-OtherClient (KeyCall.revoke id now) cs ds h a =
    subst (Apart OtherClient) (some-injective _ _ h)
      (update_clients-OtherClient id (revoke_key now) cs (λ c. (refl, refl)) a)
apply-OtherClient (KeyCall.rotate id key_prefix key_hash) cs ds h a =
    rotate_client-OtherClient id key_prefix key_hash cs ds h a
apply-OtherClient (KeyCall.touch id now) cs ds h a =
    subst (Apart OtherClient) (some-injective _ _ h)
      (update_clients-OtherClient id (touch_key now) cs (λ c. (refl, refl)) a)
apply-OtherClient (KeyCall.profile_deleted id) cs ds h a =
    subst (Apart OtherClient) (some-injective _ _ h)
      (Apart-map OtherClient (λ c. Unit) _ cs (λ c d _ _ apart. apart) (All-top cs) a)

found-All :
    (P : ApiClient → Type 0) (h : String) (cs : List ApiClient) (c : ApiClient)
    → client_by_hash h cs ≡ some c
    → All P cs
    → P c
unfolding client_by_hash
found-All P h [] c e a = cc
found-All P h (d ∷ cs) c e a =
    go (d.key_hash == h && d.enabled && is_none d.revoked_at) (λ r. found-All P h cs c r a.1) e
  where
    go :
        (b : Bool)
        → (client_by_hash h cs ≡ some c → P c)
        → (if b then some d else client_by_hash h cs) ≡ some c
        → P c
    go true f e = subst P (some-injective _ _ e) a.0
    go false f e = f e

abbrev has_key : String → ApiClient → Bool
has_key h d = d.key_hash == h && d.enabled && is_none d.revoked_at

has_key-active : (h : String) (d : ApiClient) → has_key h d ≡ true → account_of d ≡ active h
has_key-active h d e =
    rw ((eq_iff d.key_hash h).0 (ground arith))
      (in_use (d.enabled && is_none d.revoked_at) (ground arith))
  where
    in_use : (b : Bool) → b ≡ true → (if b then active h else inactive) ≡ active h
    in_use true e = refl
    in_use false e = cc

active-has_key : (h : String) (d : ApiClient) → account_of d ≡ active h → has_key h d ≡ true
active-has_key h d e =
    let (used, same) = in_use (d.enabled && is_none d.revoked_at) d.key_hash h e in
    ground (arith, eq_iff d.key_hash h)
  where
    hash_of : Account → String
    hash_of unknown = ""
    hash_of inactive = ""
    hash_of (active g) = g

    in_use :
        (b : Bool) (g h : String)
        → (if b then active g else inactive) ≡ active h
        → (b ≡ true) × (g ≡ h)
    in_use true g h e = (refl, ap hash_of e)
    in_use false g h e = cc

found_hash :
    (h : String) (cs : List ApiClient) (c : ApiClient)
    → client_by_hash h cs ≡ some c
    → c.key_hash ≡ h
unfolding client_by_hash
found_hash h [] c e = cc
found_hash h (d ∷ cs) c e = go (has_key h d) refl (found_hash h cs c) e
  where
    go :
        (b : Bool)
        → has_key h d ≡ b
        → (client_by_hash h cs ≡ some c → c.key_hash ≡ h)
        → (if b then some d else client_by_hash h cs) ≡ some c
        → c.key_hash ≡ h
    go true k f e =
        subst (λ c. c.key_hash ≡ h) (some-injective _ _ e) ((eq_iff d.key_hash h).0 (ground arith))
    go false k f e = f e

-- The row that a hash finds is in use.
pub found-active :
    (h : String) (cs : List ApiClient) (c : ApiClient)
    → Apart OtherClient cs
    → client_by_hash h cs ≡ some c
    → accounts cs c.id ≡ active h
unfolding client_by_hash accounts
found-active h [] c a e = cc
found-active h (d ∷ cs) c a e = go (has_key h d) refl (found-active h cs c a.1) e
  where
    go :
        (b : Bool)
        → has_key h d ≡ b
        → (client_by_hash h cs ≡ some c → accounts cs c.id ≡ active h)
        → (if b then some d else client_by_hash h cs) ≡ some c
        → (if d.id == c.id then account_of d else accounts cs c.id) ≡ active h
    go true k f e =
        subst (λ c. (if d.id == c.id then account_of d else accounts cs c.id) ≡ active h)
          (some-injective _ _ e) (first (d.id == d.id) (eq_refl d.id) (has_key-active h d k))
      where
        first :
            (b : Bool)
            → b ≡ true
            → account_of d ≡ active h
            → (if b then account_of d else accounts cs d.id) ≡ active h
        first true e k = k
        first false e k = cc
    go false k f e = other (d.id == c.id) refl (f e)
      where
        other :
            (b : Bool)
            → (d.id == c.id) ≡ b
            → accounts cs c.id ≡ active h
            → (if b then account_of d else accounts cs c.id) ≡ active h
        other true q k =
            absurd ((found-All (OtherClient d) h cs c e a.0).0 ((eq_iff d.id c.id).0 q))
        other false q k = k

pub active-found :
    (h id : String) (cs : List ApiClient)
    → Apart OtherClient cs
    → accounts cs id ≡ active h
    → (c : ApiClient) × (client_by_hash h cs ≡ some c) × (c.id ≡ id)
unfolding client_by_hash accounts
active-found h id [] a e = cc
active-found h id (d ∷ cs) a e = go (d.id == id) refl (active-found h id cs a.1) e
  where
    hit :
        (b : Bool)
        → b ≡ true
        → (d.id == id) ≡ true
        → (c : ApiClient) × ((if b then some d else client_by_hash h cs) ≡ some c) × (c.id ≡ id)
    hit true e q = (d, refl, (eq_iff d.id id).0 q)
    hit false e q = cc

    miss :
        (b : Bool)
        → has_key h d ≡ b
        → (c : ApiClient) × (client_by_hash h cs ≡ some c) × (c.id ≡ id)
        → (c : ApiClient) × ((if b then some d else client_by_hash h cs) ≡ some c) × (c.id ≡ id)
    miss false k r = r
    miss true k (c, f, q) = absurd (
        (found-All (OtherClient d) h cs c f a.0).1
          ((eq_iff d.key_hash h).0 (ground arith) ∙ sym (found_hash h cs c f)))

    go :
        (b : Bool)
        → (d.id == id) ≡ b
        → (accounts cs id ≡ active h
            → (c : ApiClient) × (client_by_hash h cs ≡ some c) × (c.id ≡ id))
        → (if b then account_of d else accounts cs id) ≡ active h
        → (c : ApiClient) × ((if has_key h d then some d else client_by_hash h cs) ≡ some c)
          × (c.id ≡ id)
    go true q f e = hit (has_key h d) (active-has_key h d e) q
    go false q f e = miss (has_key h d) refl (f e)
