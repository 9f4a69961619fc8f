-- ===== src/Catalog/Keys.antt =====
-- app/gateway.py: the keys of the model interface. The rate limit of a key is left out.
use opsark_admin.Common.{
  ℕ, ◌≡◌, ◌+◌, ◌*◌, true, false, ◌||◌, not, Option, none, some, List, [], ◌∷◌, String, all, any,
  leb, ◌==◌, if◌then◌else◌, arith, Bool-cases, inl, inr,
}
use opsark_admin.Common.Table.{Table, get, update, insert}
use opsark_admin.Errors.{
  ok, err, api_error, integrity_error, not_found, unknown_model, invalid_model_key,
}
use opsark_admin.Exec.{Exec, pure, raise, gets, modify, ◌>>=◌, match_option}
use opsark_admin.Accounts.{text_eq}
use opsark_admin.Catalog.{ModelRoute, ModelKey, Catalog}

-- The aliases of the enabled routes.
unfoldable pub enabled_aliases : Table ModelRoute → List String
enabled_aliases [] = []
enabled_aliases ((id, route) ∷ routes) =
    let rest = enabled_aliases routes in if route.enabled then route.alias ∷ rest else rest

pub record KeyInput : Type 0 where
  pub owner : String
  pub allowed_models : List String
  pub expires_days : ℕ
  pub rpm : ℕ

unfoldable pub new_key : KeyInput → ℕ → ℕ → ModelKey
new_key body hash now = record {
  owner = body.owner;
  token_hash = hash;
  allowed_models = body.allowed_models;
  expires = now + body.expires_days * 86400000;
  revoked = false;
  rpm = body.rpm;
}

-- The key with a digest, which is unique.
unfoldable pub find_key : ℕ → Table ModelKey → Option ModelKey
find_key hash [] = none
find_key hash ((id, key) ∷ keys) = if key.token_hash == hash then some key else find_key hash keys

unfoldable pub add_key : ℕ → ModelKey → Exec Catalog Unit
add_key id key = do
  same_id ← gets (λ db. get id db.keys)
  same_hash ← gets (λ db. find_key key.token_hash db.keys)
  match_option same_id
      (match_option same_hash (modify (λ db. record db { keys = insert id key db.keys }))
        λ _. raise integrity_error)
      λ _. raise integrity_error

-- The allowed models stand in the order of the body; they are only searched.
unfoldable pub create_key : ℕ → ℕ → KeyInput → ℕ → Exec Catalog Unit
create_key id hash body now = do
  aliases ← gets (λ db. enabled_aliases db.routes)
  if not (all (λ name. any (text_eq name) aliases) body.allowed_models)
      then raise (api_error 422 unknown_model)
      else add_key id (new_key body hash now)

unfoldable pub revoke_key : ℕ → Exec Catalog Unit
revoke_key id = do
  row ← gets (λ db. get id db.keys)
  match_option row (raise (api_error 404 not_found)) λ key.
      modify (λ db. record db { keys = update id (λ old. record old { revoked = true }) db.keys })

-- `require_key` for a header that is no user's; the digest is missing if it is no key's either.
unfoldable pub require_key : Option ℕ → ℕ → Exec Catalog ModelKey
require_key bearer now = do
  found ← match_option bearer (pure none) λ hash. gets (λ db. find_key hash db.keys)
  match_option found (raise (api_error 401 invalid_model_key)) λ key.
      if key.revoked || leb key.expires now
      then raise (api_error 401 invalid_model_key)
      else pure key

find_key-insert :
    (id : ℕ) (key : ModelKey) (keys : Table ModelKey)
    → find_key key.token_hash keys ≡ none
    → find_key key.token_hash (insert id key keys) ≡ some key
unfolding find_key
find_key-insert id key [] free = ground arith
find_key-insert id key ((j, other) ∷ keys) free =
    elim (Bool-cases (other.token_hash == key.token_hash)) [
      | inl same ↦ absurd (ground (arith, rw same at free))
      | inr differs ↦ rw differs (find_key-insert id key keys (rw differs at free))
    ]

create_key_ok :
    (id hash : ℕ) (body : KeyInput) (now : ℕ) (db : Catalog)
    → (create_key id hash body now db).0 ≡ ok tt
    → (find_key hash db.keys ≡ none)
      × ((create_key id hash body now db).1
          ≡ record db { keys = insert id (new_key body hash now) db.keys })
unfolding create_key add_key new_key ◌>>=◌
create_key_ok id hash body now db done = ground arith

-- A key that was created is accepted until the days that it was made for are over and refused from
-- then on. While it is accepted it grants what it was made for: the owner, the models and the rate of
-- the request.
pub create_key-require_key :
    (id hash : ℕ) (body : KeyInput) (now later : ℕ) (db : Catalog)
    → (create_key id hash body now db).0 ≡ ok tt
    → (require_key (some hash) later (create_key id hash body now db).1).0 ≡ (
        if leb (now + body.expires_days * 86400000) later
        then err (api_error 401 invalid_model_key)
        else ok (record {
          owner = body.owner;
          token_hash = hash;
          allowed_models = body.allowed_models;
          expires = now + body.expires_days * 86400000;
          revoked = false;
          rpm = body.rpm;
        }))
unfolding require_key new_key ◌>>=◌
create_key-require_key id hash body now later db done =
    let (free, written) = create_key_ok id hash body now db done in
    rw (written, find_key-insert id (new_key body hash now) db.keys free) (ground arith)
