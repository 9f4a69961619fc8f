-- ===== src/Lib.antt =====
-- The core of the platform service: the balances of users with the audit ledger and the journal of
-- model calls, the gateway that makes the calls, registration and sign-in, the staff's work, and
-- what is published for the clients.
--
-- Parts. The gateway (app/gateway.py, `completions`) admits a model call with `begin_direct_call`
-- (app/credits.py), which writes a journal row, sends it to a provider, and settles it with
-- `settle`, which charges the user's balance through `change`, the one function that writes a
-- balance; `refresh_reconciliations` repairs what a lost process left open; staff adjust balances
-- and reconcile calls by hand (app/accounts.py, `adjust`, `reconcile`).
--
-- Files. Models.antt has the rows of app/models.py and app/user_models.py. Exec.antt is the
-- session: an action reads and writes the rows and may raise an `Error` (Errors.antt, for
-- `ApiError` of app/security.py), and `transaction` undoes what a request wrote before it raised.
-- Credits.antt has `change`, `reserve`, `begin_direct_call` and what they call; Credits/Settle.antt
-- has `settle` and `settle_direct_call`, and Credits/Refresh.antt `refresh_reconciliations` with
-- `close_stale_call`, each conditional UPDATE with its WHERE clause. Accounts.antt has the handlers
-- `adjust` and `reconcile`, Accounts/Anomalies.antt the selection and the reasons of
-- `reservation_items`, and Accounts/History.antt the sequences of requests. The proofs stand below:
-- Credits/Balance.antt and Credits/Journal.antt for the ledger, Credits/Holds.antt,
-- Credits/Sound.antt, Credits/Admission.antt, Credits/Settlement.antt and its children,
-- Credits/Recovery.antt, Credits/Repair.antt, Credits/Duplicates.antt and Credits/Review.antt for
-- the journal, Credits/Audit.antt for what the ledger promises an auditor,
-- Accounts/Balanced.antt and Accounts/Sound.antt for the staff's handlers. Service.antt puts these
-- parts together: one step of it is an operation of the gateway, of a user or of the staff, and
-- Service/Kept.antt and Service/Reached.antt follow it from an empty database.
--
-- Gateway.antt has the admission of a call, Gateway/Exchange.antt what follows: `handle` is the
-- handler from the wait for a slot to its `finally`, `finish` the recording of an outcome, and an
-- `Exchange` what the network and the provider do. Gateway/Usage.antt has the reading of a usage
-- report. Gateway/Delivered.antt has what a delivery sends,
-- Gateway/Kept.antt the rule for invariants of the handler, Gateway/Slots.antt the
-- slots and the invariants, Gateway/Outcome.antt, Gateway/Paths.antt and
-- Gateway/Ending.antt the end of every call, and
-- Gateway/Admitted.antt the admission. Gateway/Stream.antt is the streamed reply with its generator
-- `events`, over the lines of Gateway/Lines.antt; Gateway/Lines/Cut.antt,
-- Gateway/Stream/Chunks.antt, Gateway/Stream/Closing.antt and Gateway/Stream/Slots.antt have its
-- proofs. Gateway/Request.antt has the checks of a request before its admission and
-- Gateway/Request/Prepare.antt what is sent, with proofs in Gateway/Request/Checked.antt,
-- Gateway/Request/Limit.antt,
-- Gateway/Request/Limited.antt and Gateway/Request/Budget.antt; Gateway/Whole.antt puts checks,
-- admission and outcome of a user's request together.
--
-- Catalog.antt has the providers and routes of app/gateway.py, Catalog/Keys.antt its keys, and
-- Catalog/Capabilities.antt what a route offers, as app/model_presets.py computes it;
-- Catalog/Served.antt has the proofs. Json.antt has the JSON values, Protocols.antt the checks of
-- app/model_protocols.py, and Protocols/Address.antt its `upstream_url`.
--
-- Registration.antt has `register` and `save_policy` of app/accounts.py, Registration/Granted.antt
-- and Registration/Policy.antt the proofs. Github.antt has the flows of app/github_auth.py;
-- Github/Once.antt, Github/Spent.antt and Github/Steps.antt follow a flow through any sequence of
-- requests. Updates.antt has app/client_updates.py with `check_cloud_version` of
-- app/cloud_common.py, Content.antt app/official_content.py; Updates/Latest.antt,
-- Content/Increasing.antt and Content/Available.antt have the proofs.
--
-- Sessions.antt has the sessions of app/accounts.py (`issue_session`, `login`, `require_user`,
-- `refresh_session`, `logout`, `set_user_status`, `revoke_all_sessions`, `revoke_user_session`),
-- and Sessions/History.antt the sequences of these requests; Sessions/Revoked.antt,
-- Sessions/Kept.antt and Sessions/Ended.antt have the proofs.
--
-- Security.antt has the rate limiter of app/security.py, `Limiter.check`, over the queues of all
-- keys; Security/Queue.antt, Security/Forget.antt and Security/Window.antt have its proofs.
--
-- Parameters.antt has `merge_parameters` of app/model_parameters.py, and Parameters/Presets.antt
-- and Parameters/Routes.antt `resolve_parameters` and `resolve_route_parameters` of
-- app/model_presets.py: the provider's defaults, the caller's request and the route's overrides
-- become what is sent upstream. Parameters/Merge.antt, Parameters/Ceiling.antt,
-- Parameters/Budget.antt and Parameters/Budget/Fits.antt have the proofs.
--
-- Skills.antt has `mutate` of app/skill_sync.py, where the hash of a request is a parameter, and
-- Skills/Sync.antt its proofs.
--
-- Feedback.antt, Feedback/Submit.antt and Feedback/Answer.antt are app/feedback.py, with its two
-- lists reduced to the purge that they run; Feedback/Once.antt, Feedback/Retained.antt,
-- Feedback/History.antt, Feedback/Emptied.antt and Feedback/Deleted.antt have the proofs.
--
-- Delivery.antt has `delivery_metadata` and `request_status` of app/model_delivery.py, and the
-- details of the refusal of a repeated request of app/credits.py, `reject_duplicate_request`.
--
-- Conventions. Identifiers, request keys and hashes are numbers, since the program only compares
-- them; a balance is an integer, and a point in time a number of milliseconds that the caller
-- passes. The account lock makes the transactions of one user follow each other, so a history is a
-- sequence of whole requests; a second read of a row inside a transaction sees the same row. No
-- loop needs fuel: each follows a list.
--
-- Not modelled: the texts and details of replies, audit rows, the rules of parameters for the pages,
-- what GitHub replies (an input of `end_callback`), the estimation of tokens, the checks of
-- the items of official content, reports and log filters (app/call_monitor.py, app/log_privacy.py),
-- the tables of tools and official models, application start, migrations, scripts, and the web pages.
-- The table of mutations that skills and feedback share is two tables here, so a key that a user
-- has used for both kinds is left out. The functions that read the text of a provider's refusal, and `destination`, work on texts with
-- libraries; their results are inputs.
pub mod Common
pub mod Errors
pub mod Exec
pub mod Models
pub mod Credits
pub mod Accounts
pub mod Security
pub mod Parameters
pub mod Sessions
pub mod Skills
pub mod Delivery
pub mod Json
pub mod Protocols
pub mod Gateway
pub mod Catalog
pub mod Registration
pub mod Github
pub mod Updates
pub mod Content
pub mod Feedback
pub mod Service
