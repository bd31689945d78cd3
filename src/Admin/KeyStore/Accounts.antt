-- ===== src/Admin/KeyStore/Accounts.antt =====
-- The accounts that the rows stand for, and the calls on them.
use safe_cloud.Prelude.{
  ℕ, String, List, [], ◌∷◌, ◌++◌, Option, some, Bool, Bool-cases, true, false, inl, inr, ◌==◌, ◌&&◌,
  ◌≡◌, refl, sym, ap, ◌∙◌, arith, eq_iff, map, if◌then◌else◌,
}
use safe_cloud.Admin.Tables.{ApiClient}
use safe_cloud.Admin.Config.{unpin}
use safe_cloud.Admin.Keys.{
  update_clients, key_taken, revoke_key, touch_key, add_client, rotate_client, is_none,
}

pub data Account : Type 0 where
  unknown inactive : Account
  active : String → Account

abbrev pub Accounts : Type 0
Accounts = String → Account

abbrev pub account_of : ApiClient → Account
account_of c = if c.enabled && is_none c.revoked_at then active c.key_hash else inactive

unfoldable pub accounts : List ApiClient → Accounts
accounts [] j = unknown
accounts (c ∷ cs) j = if c.id == j then account_of c else accounts cs j

-- The calls of api/db.py that change the table, with the time of the call.
pub data KeyCall : Type 0 where
  create : ApiClient → KeyCall
  revoke : String → ℕ → KeyCall
  rotate : (id key_prefix key_hash : String) → KeyCall
  touch : String → ℕ → KeyCall
  profile_deleted : String → KeyCall

unfoldable pub apply : KeyCall → List ApiClient → Option (List ApiClient)
apply (create row) cs = add_client row cs
apply (revoke id now) cs = some (update_clients id (revoke_key now) cs)
apply (rotate id key_prefix key_hash) cs = rotate_client id key_prefix key_hash cs
apply (touch id now) cs = some (update_clients id (touch_key now) cs)
apply (profile_deleted id) cs = some (map (unpin id) cs)

-- What the calls mean, without the rows.
abbrev pub retire : Account → Account
retire unknown = unknown
retire inactive = inactive
retire (active h) = inactive

abbrev pub renew : String → Account → Account
renew h unknown = unknown
renew h inactive = active h
renew h (active g) = active h

abbrev pub change : String → (Account → Account) → Accounts → Accounts
change id t k j = if id == j then t (k j) else k j

abbrev pub meaning : KeyCall → Accounts → Accounts
meaning (create row) k = change row.id (λ a. account_of row) k
meaning (revoke id now) k = change id retire k
meaning (rotate id key_prefix key_hash) k = change id (renew key_hash) k
meaning (touch id now) k = k
meaning (profile_deleted id) k = k

account_of-row :
    (b : Bool) (x y : ApiClient) (j : String) (rest : Account)
    → x.id ≡ y.id
    → (if (if b then x else y).id == j then account_of (if b then x else y) else rest)
      ≡ (if y.id == j then (if b then account_of x else account_of y) else rest)
account_of-row true x y j rest e = rw e refl
account_of-row false x y j rest e = refl

-- An update of one row changes one account.
pub accounts-update :
    (id : String) (f : ApiClient → ApiClient) (t : Account → Account) (cs : List ApiClient)
    (j : String)
    → ((c : ApiClient) → (f c).id ≡ c.id)
    → ((c : ApiClient) → account_of (f c) ≡ t (account_of c))
    → t unknown ≡ unknown
    → accounts (update_clients id f cs) j ≡ change id t (accounts cs) j
unfolding accounts
accounts-update id f t [] j k a u = elim (Bool-cases (id == j)) [
  | inl e ↦ rw e (sym u)
  | inr e ↦ rw e refl
]
accounts-update id f t (c ∷ cs) j k a u =
    account_of-row (c.id == id) (f c) c j _ (k c)
    ∙ (ap
          (λ rest.
            if c.id == j then (if c.id == id then account_of (f c) else account_of c) else rest)
          (accounts-update id f t cs j k a u)
        ∙ chosen (c.id == id) (c.id == j) (id == j) refl refl refl)
  where
    chosen :
        (b d i : Bool)
        → (c.id == id) ≡ b
        → (c.id == j) ≡ d
        → (id == j) ≡ i
        → (if d
            then (if b then account_of (f c) else account_of c)
            else if i
            then t (accounts cs j)
            else accounts cs j)
          ≡ (if i
              then t (if d then account_of c else accounts cs j)
              else if d
              then account_of c
              else accounts cs j)
    chosen b false i p q r = refl
    chosen true true true p q r = a c
    chosen false true false p q r = refl
    chosen true true false p q r = ground (arith, eq_iff c.id id, eq_iff c.id j, eq_iff id j)
    chosen false true true p q r = ground (arith, eq_iff c.id id, eq_iff c.id j, eq_iff id j)

pub accounts-append :
    (row : ApiClient) (cs : List ApiClient) (j : String)
    → key_taken row.id row.key_hash cs ≡ false
    → accounts (cs ++ row ∷ []) j ≡ change row.id (λ a. account_of row) (accounts cs) j
unfolding accounts key_taken
accounts-append row [] j h = refl
accounts-append row (c ∷ cs) j h =
    ap (λ rest. if c.id == j then account_of c else rest) (accounts-append row cs j (ground arith))
    ∙ chosen (c.id == j) (row.id == j) refl refl
  where
    chosen :
        (d i : Bool)
        → (c.id == j) ≡ d
        → (row.id == j) ≡ i
        → (if d then account_of c else if i then account_of row else accounts cs j)
          ≡ (if i then account_of row else if d then account_of c else accounts cs j)
    chosen false i q r = refl
    chosen true false q r = refl
    chosen true true q r = ground (arith, eq_iff c.id row.id, eq_iff c.id j, eq_iff row.id j)

pub accounts-unpin :
    (id : String) (cs : List ApiClient) (j : String)
    → accounts (map (unpin id) cs) j ≡ accounts cs j
unfolding accounts
accounts-unpin id [] j = refl
accounts-unpin id (c ∷ cs) j =
    ap (λ rest. if c.id == j then account_of c else rest) (accounts-unpin id cs j)
