-- ===== src/Github.antt =====
-- app/github_auth.py: the sign-in with GitHub. A flow is opened by a desktop client, authorised by the
-- callback of the browser, and completed once by the client that proves to have opened it. Digests
-- and challenges are numbers, and what GitHub replies is an argument.
pub mod Once
pub mod Spent
pub mod Steps
mod Tests
use opsark_admin.Common.{
  ℕ, ◌+◌, Bool, true, false, ◌&&◌, ◌||◌, not, Option, none, some, List, [], ◌∷◌, String, leb, ◌==◌,
  if◌then◌else◌,
}
use opsark_admin.Common.Int.{pos}
use opsark_admin.Common.Table.{Table, get, update, insert}
use opsark_admin.Errors.{
  Error, Code, Result, ok, err, api_error, integrity_error, cancelled_error, oauth_flow_expired,
  oauth_callback_used, oauth_flow_consumed, oauth_invalid_proof, account_changed, account_disabled,
  github_already_linked, account_already_linked, login_and_link_required, registration_disabled,
  github_login_failed,
}
use opsark_admin.Exec.{
  Exec, pure, raise, lift, gets, modify, catch, transaction, ◌>>=◌, ◌>>◌, match_option,
}
use opsark_admin.Models.{Db, CreditAccount, UserAccount, UserSession}
use opsark_admin.Credits.{balance}
use opsark_admin.Sessions.{find_user, issue_session, require_user}
use opsark_admin.Registration.{policy_of, new_user, open_account, Tokens}

pub data FlowStatus : Type 0 where
  pending exchanging authorized flow_failed consumed : FlowStatus

pub data Mode : Type 0 where
  sign_in link : Mode

pub record GithubFlow : Type 0 where
  pub state_hash : ℕ
  pub native_challenge : ℕ
  pub status : FlowStatus
  pub user_id : Option ℕ
  pub mode : Mode
  pub expires_at : ℕ
  pub error : Option Code

-- The rows of the accounts with those of the flows; the identities map an account of GitHub to a
-- user.
pub record Hub : Type 0 where
  pub db : Db
  pub flows : Table GithubFlow
  pub identities : Table ℕ

unfoldable pub on_rows : {A : Type 0} → Exec Db A → Exec Hub A
on_rows m hub = let (r, rows) = m hub.db in (r, record hub { db = rows })

unfoldable pub write_flow : ℕ → (GithubFlow → GithubFlow) → Exec Hub Unit
write_flow id f = modify (λ hub. record hub { flows = update id f hub.flows })

-- The identity of a user.
unfoldable pub identity_of : ℕ → Table ℕ → Option ℕ
identity_of user_id [] = none
identity_of user_id ((github_id, owner) ∷ rows) =
    if owner == user_id then some github_id else identity_of user_id rows

-- The primary key of an identity, and its unique user.
unfoldable pub add_identity : ℕ → ℕ → Exec Hub Unit
add_identity github_id user_id = do
  taken ← gets (λ hub. get github_id hub.identities)
  owned ← gets (λ hub. identity_of user_id hub.identities)
  match_option taken
      (match_option owned
        (modify (λ hub. record hub { identities = insert github_id user_id hub.identities }))
        λ _. raise integrity_error)
      λ _. raise integrity_error

-- `if not user or user.disabled`
unfoldable pub active_user : Option ℕ → Exec Hub ℕ
active_user none = raise (api_error 403 account_disabled)
active_user (some user_id) = do
  row ← gets (λ hub. get user_id hub.db.users)
  match_option row (raise (api_error 403 account_disabled))
      λ user. if user.disabled then raise (api_error 403 account_disabled) else pure user_id

abbrev pub is_other : Option ℕ → ℕ → Bool
is_other none id = false
is_other (some found) id = not (found == id)

-- `resolve_identity` of a flow that links.
unfoldable pub link_identity : Option ℕ → ℕ → Exec Hub ℕ
link_identity flow_user github_id = do
  user_id ← active_user flow_user
  linked ← gets (λ hub. get github_id hub.identities)
  if is_other linked user_id then raise (api_error 409 github_already_linked) else do
    existing ← gets (λ hub. identity_of user_id hub.identities)
    if is_other existing github_id
        then raise (api_error 409 account_already_linked)
        else do match_option linked (add_identity github_id user_id) λ _. pure tt; pure user_id

-- What a new user gets; the password is a random one.
pub record NewUser : Type 0 where
  pub user_id : ℕ
  pub password_hash : ℕ
  pub reason : String

unfoldable pub enrol_identity : NewUser → ℕ → String → ℕ → Exec Hub ℕ
enrol_identity new github_id email now = do
  policy ← gets (λ hub. policy_of hub.db)
  if not policy.enabled then raise (api_error 403 registration_disabled) else do
    on_rows (
        open_account new.user_id (new_user email new.password_hash now) policy.initial_tokens
          new.reason now)
    add_identity github_id new.user_id
    pure new.user_id

-- `resolve_identity` of a flow that signs in. An email that is known proves nothing.
unfoldable pub sign_in_identity : NewUser → ℕ → String → ℕ → Exec Hub ℕ
sign_in_identity new github_id email now = do
  linked ← gets (λ hub. get github_id hub.identities)
  match_option linked
      (do
        known ← gets (λ hub. find_user email hub.db.users)
        match_option known (enrol_identity new github_id email now)
            λ _. raise (api_error 409 login_and_link_required))
      λ owner. active_user (some owner)

unfoldable pub resolve_as : Mode → NewUser → Option ℕ → ℕ → String → ℕ → Exec Hub ℕ
resolve_as link new flow_user github_id email now = link_identity flow_user github_id
resolve_as sign_in new flow_user github_id email now = sign_in_identity new github_id email now

unfoldable pub resolve_identity : NewUser → GithubFlow → ℕ → String → ℕ → Exec Hub ℕ
resolve_identity new flow github_id email now =
    resolve_as flow.mode new flow.user_id github_id email now

unfoldable pub find_flow : ℕ → Table GithubFlow → Option (ℕ × GithubFlow)
find_flow state [] = none
find_flow state ((id, flow) ∷ flows) =
    if flow.state_hash == state then some (id, flow) else find_flow state flows

abbrev pub is_pending : FlowStatus → Bool
is_pending pending = true
is_pending _ = false

abbrev pub is_authorized : FlowStatus → Bool
is_authorized authorized = true
is_authorized _ = false

abbrev pub is_waiting : FlowStatus → Bool
is_waiting pending = true
is_waiting exchanging = true
is_waiting _ = false

abbrev pub is_failed : FlowStatus → Bool
is_failed flow_failed = true
is_failed _ = false

unfoldable pub set_status : FlowStatus → GithubFlow → GithubFlow
set_status status flow = record flow { status = status }

-- `UPDATE ... WHERE id = ... AND status = "pending"`
unfoldable pub claim_flow : ℕ → Exec Hub ℕ
claim_flow id = do
  row ← gets (λ hub. get id hub.flows)
  match_option row (raise (api_error 409 oauth_callback_used)) λ flow.
      if is_pending flow.status
      then (do write_flow id (set_status exchanging); pure id)
      else raise (api_error 409 oauth_callback_used)

-- `callback` up to its first commit.
unfoldable pub take_flow : ℕ → ℕ → Exec Hub ℕ
take_flow state now = do
  found ← gets (λ hub. find_flow state hub.flows)
  match_option found (raise (api_error 400 oauth_flow_expired)) λ (id, flow).
      if leb flow.expires_at now then raise (api_error 400 oauth_flow_expired) else claim_flow id

abbrev pub authorize : ℕ → GithubFlow → GithubFlow
authorize user_id flow = record flow { user_id = some user_id; status = authorized }

-- `failure.code if isinstance(failure, ApiError) else "GITHUB_LOGIN_FAILED"`
abbrev pub code_of : Error → Code
code_of (api_error status code) = code
code_of _ = github_login_failed

abbrev pub give_up : Error → GithubFlow → GithubFlow
give_up failure flow = record flow { status = flow_failed; error = some (code_of failure) }

-- The body of the `try`, for what GitHub said of the visitor: the id and the verified email, or the
-- exception that the requests or their checks raised.
unfoldable pub exchange : ℕ → GithubFlow → NewUser → Result (ℕ × String) → ℕ → Exec Hub Unit
exchange id flow new identity now = do
  (github_id, email) ← lift identity
  user_id ← resolve_identity new flow github_id email now
  write_flow id (authorize user_id)

-- The `except` clause; a visitor who is gone leaves the flow where it is.
unfoldable pub on_exchange : ℕ → Error → Exec Hub Unit
on_exchange id cancelled_error = raise cancelled_error
on_exchange id failure = write_flow id (give_up failure)

-- The rest of `callback` for the flow that was taken.
unfoldable pub end_callback : ℕ → NewUser → Result (ℕ × String) → ℕ → Exec Hub Unit
end_callback id new identity now = do
  found ← gets (λ hub. get id hub.flows)
  match_option found (pure tt)
      λ flow. catch (transaction (exchange id flow new identity now)) (on_exchange id)

pub data Completion : Type 0 where
  still_pending linked : Completion
  signed_in : ℕ → Completion

-- The last part of `complete`, for the flow that was consumed.
unfoldable pub finish_flow : Mode → ℕ → Option ℕ → Tokens → ℕ → Exec Hub Completion
finish_flow link user_id bearer fresh now = do
  (session_id, session) ← on_rows (require_user bearer now)
  if session.user_id == user_id then pure linked else raise (api_error 403 account_changed)
finish_flow sign_in user_id bearer fresh now = do
  on_rows (issue_session user_id fresh.session_id fresh.access fresh.refresh now)
  pure (signed_in user_id)

-- The conditional UPDATE consumes the flow.
unfoldable pub spend : ℕ → GithubFlow → Option ℕ → Tokens → ℕ → ℕ → Exec Hub Completion
spend id flow bearer fresh now user_id =
    if is_authorized flow.status
    then (do write_flow id (set_status consumed); finish_flow flow.mode user_id bearer fresh now)
    else raise (api_error 409 oauth_flow_consumed)

unfoldable pub consume : ℕ → GithubFlow → Option ℕ → Tokens → ℕ → Exec Hub Completion
consume id flow bearer fresh now = do
  user_id ← active_user flow.user_id
  spend id flow bearer fresh now user_id

abbrev pub error_or : Option Code → Code
error_or none = github_login_failed
error_or (some code) = code

unfoldable pub complete_flow : ℕ → GithubFlow → ℕ → Option ℕ → Tokens → ℕ → Exec Hub Completion
complete_flow id flow proof bearer fresh now =
    if not (flow.native_challenge == proof) || leb flow.expires_at now
    then raise (api_error 401 oauth_invalid_proof)
    else if is_waiting flow.status
    then pure still_pending
    else if is_failed flow.status
    then raise (api_error 403 (error_or flow.error))
    else consume id flow bearer fresh now

-- `complete` up to its commit.
unfoldable pub complete_found : ℕ → ℕ → Option ℕ → Tokens → ℕ → Exec Hub Completion
complete_found id proof bearer fresh now = do
  found ← gets (λ hub. get id hub.flows)
  match_option found (raise (api_error 401 oauth_invalid_proof))
      λ flow. complete_flow id flow proof bearer fresh now

unfoldable pub complete : ℕ → ℕ → Option ℕ → Tokens → ℕ → Exec Hub Completion
complete id proof bearer fresh now = transaction (complete_found id proof bearer fresh now)

unfoldable pub new_flow : ℕ → ℕ → Mode → Option ℕ → ℕ → GithubFlow
new_flow state challenge mode user_id now = record {
  state_hash = state;
  native_challenge = challenge;
  status = pending;
  user_id = user_id;
  mode = mode;
  expires_at = now + 600000;
  error = none;
}

unfoldable pub add_flow : ℕ → GithubFlow → Exec Hub Unit
add_flow id flow = do
  taken ← gets (λ hub. get id hub.flows)
  same_state ← gets (λ hub. find_flow flow.state_hash hub.flows)
  match_option taken
      (match_option same_state (modify (λ hub. record hub { flows = insert id flow hub.flows }))
        λ _. raise integrity_error)
      λ _. raise integrity_error

unfoldable pub owner_for : Mode → Option ℕ → ℕ → Exec Hub (Option ℕ)
owner_for link bearer now = do
  (session_id, session) ← on_rows (require_user bearer now)
  pure (some session.user_id)
owner_for sign_in bearer now = pure none

-- `start`, where GitHub is configured.
unfoldable pub start : ℕ → ℕ → ℕ → Mode → Option ℕ → ℕ → Exec Hub Unit
start id state challenge mode bearer now = do
  user_id ← owner_for mode bearer now
  add_flow id (new_flow state challenge mode user_id now)
