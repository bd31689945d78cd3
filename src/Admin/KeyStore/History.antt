-- ===== src/Admin/KeyStore/History.antt =====
-- Histories of calls on the table of API clients.
use safe_cloud.Prelude.{
  String, List, [], ◌∷◌, none, some, ◌==◌, ◌≡◌, ◌↔◌, refl, sym, ap, subst, ◌∙◌, if◌then◌else◌,
}
use safe_cloud.Prelude.Pairs.{Apart}
use safe_cloud.Admin.Tables.{ApiClient}
use safe_cloud.Admin.Keys.{client_by_hash}
use safe_cloud.Admin.Invariant.Rows.{OtherClient}
use safe_cloud.Admin.KeyStore.Accounts.{
  unknown, active, Accounts, account_of, accounts, KeyCall, apply, meaning, retire, renew,
}
use safe_cloud.Admin.KeyStore.Refines.{
  apply-accounts, apply-OtherClient, found-active, active-found,
}

-- The tables that a sequence of calls leads to, those that a constraint refuses among them.
pub data Leads : List KeyCall → List ApiClient → Type 0 where
  start : Leads [] []
  step :
      {calls : List KeyCall} {cs ds : List ApiClient} (call : KeyCall)
      → Leads calls cs
      → apply call cs ≡ some ds
      → Leads (call ∷ calls) ds
  refused :
      {calls : List KeyCall} {cs : List ApiClient} (call : KeyCall)
      → Leads calls cs
      → apply call cs ≡ none
      → Leads calls cs

-- What the calls mean together, the last one first.
unfoldable pub history : List KeyCall → Accounts
history [] j = unknown
history (call ∷ calls) j = meaning call (history calls) j

Leads-OtherClient :
    {calls : List KeyCall} {cs : List ApiClient} → Leads calls cs → Apart OtherClient cs
Leads-OtherClient start = tt
Leads-OtherClient (step {cs = cs} {ds = ds} call l e) =
    apply-OtherClient call cs ds e (Leads-OtherClient l)
Leads-OtherClient (refused call l e) = Leads-OtherClient l

meaning-cong :
    (call : KeyCall) (k m : Accounts) (j : String) → k j ≡ m j → meaning call k j ≡ meaning call m j
meaning-cong (KeyCall.create row) k m j e = ap (λ a. if row.id == j then account_of row else a) e
meaning-cong (KeyCall.revoke id now) k m j e = ap (λ a. if id == j then retire a else a) e
meaning-cong (KeyCall.rotate id key_prefix key_hash) k m j e =
    ap (λ a. if id == j then renew key_hash a else a) e
meaning-cong (KeyCall.touch id now) k m j e = e
meaning-cong (KeyCall.profile_deleted id) k m j e = e

Leads-accounts :
    {calls : List KeyCall} {cs : List ApiClient} (j : String)
    → Leads calls cs
    → accounts cs j ≡ history calls j
unfolding history accounts
Leads-accounts j start = refl
Leads-accounts j (step {calls = calls} {cs = cs} {ds = ds} call l e) =
    apply-accounts call cs ds j e
    ∙ meaning-cong call (accounts cs) (history calls) j (Leads-accounts j l)
Leads-accounts j (refused call l e) = Leads-accounts j l

-- After any sequence of calls on the empty table, refused calls included, a key's hash finds a row exactly if, by what the calls that were not refused mean together, the row's client has that hash in use (a row that is created enabled has its hash in use, revoking a client ends the use of its hash, and rotating its key replaces the hash and starts its use again).
pub client_by_hash-history :
    (calls : List KeyCall) (cs : List ApiClient) (h id : String)
    → Leads calls cs
    → ((c : ApiClient) × (client_by_hash h cs ≡ some c) × (c.id ≡ id))
      ↔ (history calls id ≡ active h)
client_by_hash-history calls cs h id l = (
  (λ (c, e, q).
      sym (Leads-accounts id l)
      ∙ subst (λ j. accounts cs j ≡ active h) q (found-active h cs c (Leads-OtherClient l) e)),
  (λ e. active-found h id cs (Leads-OtherClient l) (Leads-accounts id l ∙ e)),
)
