-- ===== src/Admin/Invariant/KeyRows.antt =====
-- The table of API clients keeps its keys and hashes different.
use mathlib.Core.Option.{some-injective}
use safe_cloud.Prelude.{
  String, List, [], ◌∷◌, ◌++◌, none, some, Bool, true, false, inl, inr, ◌==◌, ◌≡◌, ◌≢◌, ◌⊎◌, refl,
  sym, subst, ◌∙◌, arith, eq_iff, All, if◌then◌else◌,
}
use safe_cloud.Prelude.Pairs.{Apart, Apart-append, Apart-map, All-top}
use safe_cloud.Admin.Tables.{ApiClient}
use safe_cloud.Admin.Keys.{
  update_clients, key_taken, key_of_other, rotate_key, add_client, rotate_client,
}
use safe_cloud.Admin.Invariant.Rows.{OtherClient, if-both}

taken-OtherClient :
    (row : ApiClient) (cs : List ApiClient)
    → key_taken row.id row.key_hash cs ≡ false
    → All (λ c. OtherClient c row) cs
unfolding key_taken
taken-OtherClient row [] h = tt
taken-OtherClient row (c ∷ cs) h = (
  (
    (λ same. ground (arith, eq_iff c.id row.id)),
    (λ same. ground (arith, eq_iff c.key_hash row.key_hash)),
  ),
  taken-OtherClient row cs (ground arith),
)

pub add_client-OtherClient :
    (row : ApiClient) (cs ds : List ApiClient)
    → add_client row cs ≡ some ds
    → Apart OtherClient cs
    → Apart OtherClient ds
unfolding add_client
add_client-OtherClient row cs ds h a = go (key_taken row.id row.key_hash cs) refl h
  where
    go :
        (b : Bool)
        → key_taken row.id row.key_hash cs ≡ b
        → (if b then none else some (cs ++ row ∷ [])) ≡ some ds
        → Apart OtherClient ds
    go true e h = cc
    go false e h =
        subst (Apart OtherClient) (some-injective _ _ h)
          (Apart-append OtherClient cs row (taken-OtherClient row cs e) a)

-- A change that leaves keys and hashes as they are.
pub update_clients-OtherClient :
    (id : String) (f : ApiClient → ApiClient) (cs : List ApiClient)
    → ((c : ApiClient) → ((f c).id ≡ c.id) × ((f c).key_hash ≡ c.key_hash))
    → Apart OtherClient cs
    → Apart OtherClient (update_clients id f cs)
update_clients-OtherClient id f cs k h =
    Apart-map OtherClient (λ c. Unit) _ cs
      (λ c d _ _ apart. (
        (λ same. apart.0 (sym (kept c).0 ∙ (same ∙ (kept d).0))),
        (λ same. apart.1 (sym (kept c).1 ∙ (same ∙ (kept d).1))),
      ))
      (All-top cs) h
  where
    kept :
        (c : ApiClient)
        → ((if c.id == id then f c else c).id ≡ c.id)
          × ((if c.id == id then f c else c).key_hash ≡ c.key_hash)
    kept c =
        if-both (λ d. (d.id ≡ c.id) × (d.key_hash ≡ c.key_hash)) (c.id == id) (f c) c (k c)
          (refl, refl)

-- The new hash is that of no other client.
abbrev Free : (id key_hash : String) → ApiClient → Type 0
Free id key_hash c = (c.id ≡ id) ⊎ (c.key_hash ≢ key_hash)

key_of_other-Free :
    (id key_hash : String) (cs : List ApiClient)
    → key_of_other id key_hash cs ≡ false
    → All (Free id key_hash) cs
unfolding key_of_other
key_of_other-Free id key_hash [] h = tt
key_of_other-Free id key_hash (c ∷ cs) h =
    (here (c.id == id) refl, key_of_other-Free id key_hash cs (ground arith))
  where
    here : (b : Bool) → (c.id == id) ≡ b → Free id key_hash c
    here true e = inl ((eq_iff c.id id).0 e)
    here false e = inr (λ same. ground (arith, eq_iff c.key_hash key_hash))

Free-hash :
    {id key_hash : String} (c : ApiClient) → Free id key_hash c → c.id ≢ id → c.key_hash ≢ key_hash
Free-hash c (inl e) n = absurd (n e)
Free-hash c (inr f) n = f

rotate_key-OtherClient :
    (id key_prefix key_hash : String) (c d : ApiClient)
    → Free id key_hash c
    → Free id key_hash d
    → OtherClient c d
    → OtherClient
        (if c.id == id then rotate_key key_prefix key_hash c else c)
        (if d.id == id then rotate_key key_prefix key_hash d else d)
unfolding rotate_key
rotate_key-OtherClient id key_prefix key_hash c d fc fd apart =
    go (c.id == id) (d.id == id) refl refl
  where
    go :
        (b e : Bool)
        → (c.id == id) ≡ b
        → (d.id == id) ≡ e
        → OtherClient
            (if b then rotate_key key_prefix key_hash c else c)
            (if e then rotate_key key_prefix key_hash d else d)
    go true true p q = absurd (apart.0 ((eq_iff c.id id).0 p ∙ sym ((eq_iff d.id id).0 q)))
    go true false p q =
        (apart.0, (λ same. Free-hash d fd (λ e. apart.0 ((eq_iff c.id id).0 p ∙ sym e)) (sym same)))
    go false true p q = (apart.0, Free-hash c fc (λ e. apart.0 (e ∙ sym ((eq_iff d.id id).0 q))))
    go false false p q = apart

pub rotate_client-OtherClient :
    (id key_prefix key_hash : String) (cs ds : List ApiClient)
    → rotate_client id key_prefix key_hash cs ≡ some ds
    → Apart OtherClient cs
    → Apart OtherClient ds
unfolding rotate_client
rotate_client-OtherClient id key_prefix key_hash cs ds h a = go (key_of_other id key_hash cs) refl h
  where
    go :
        (b : Bool)
        → key_of_other id key_hash cs ≡ b
        → (if b then none else some (update_clients id (rotate_key key_prefix key_hash) cs))
          ≡ some ds
        → Apart OtherClient ds
    go true e h = cc
    go false e h = subst (Apart OtherClient) (some-injective _ _ h) (
        Apart-map OtherClient (Free id key_hash) _ cs
          (λ c d fc fd apart. rotate_key-OtherClient id key_prefix key_hash c d fc fd apart)
          (key_of_other-Free id key_hash cs e) a)
