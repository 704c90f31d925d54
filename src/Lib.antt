-- ===== src/Lib.antt =====
-- OpsFlow: a verification library for the Core Backend and the Incident Service.
--
-- The Core Backend (backend/app) is a FastAPI service. Its routes call services, services call
-- repositories and gateways, and small in-process components guard them: the login route asks the
-- login throttle before it checks a password, the password-reset route asks the reset throttle, every
-- call to the Incident Service goes through the gateway, which asks the circuit breaker first and
-- reports to it afterwards, and the refresh and logout routes rotate or revoke a session row. In the
-- Incident Service (incident-service/app) reconcilers claim tasks in a shared table, process each one,
-- and write the end of it to the record that they claimed. A request that creates an incident adds a
-- task to an outbox in the same transaction; a relay sends it to a queue; the task worker Lambda
-- accepts it into the table that the reconcilers read; and the reconciler's transaction adds a
-- completion event to a second outbox, which another relay sends.
--
-- Which file models which part:
--   Prelude            Boolean tests on native numbers, results, integers, seconds, lists
--   Dict               a Python dict with text keys, in insertion order
--   Circuit            backend/app/core/circuit_breaker.py: class CircuitBreaker. The record is the
--                      object, each method a function of the same name, `run` a sequence of calls.
--     Circuit/Invariant, Circuit/Probes, Circuit/Recovery   the theorems on it
--   Gateway            backend/app/gateways/http_incident_gateway.py: `_request` is `request`, its
--                      loop is `attempt_loop`, the body of the loop `on_attempt`.
--     Gateway/Retry, Gateway/Settlement, Gateway/Probe      the loop, one call, the half-open probe
--   Throttle/Keys      the keys of both throttles (`_opaque_key`)
--   Throttle/Window    `_prune` and its cutoff, and the unpruned count it stands for
--   Throttle/Store     `_get_active_entries` on the dictionary of deques
--   Throttle/Login     backend/app/core/login_throttle.py: class InMemoryLoginThrottle
--     Login/Log is its specification, Login/Refines and Login/Limit the theorems
--   Throttle/Reset     backend/app/core/password_reset_throttle.py: InMemoryPasswordResetThrottle
--     Reset/Bounds, Reset/RetryAfter                        the theorems on it
--   Auth/Sessions      backend/app/domain/auth_session.py and the statements of
--                      backend/app/repositories/sqlalchemy_auth_session_repository.py
--   Auth/Users         backend/app/domain/user.py and sqlalchemy_user_repository.py
--   Auth/Tokens        backend/app/core/security.py
--   Auth/Action        a service method on the database session: state and exceptions
--   Auth/Service       backend/app/services/authentication_service.py, method by method
--     Auth/Refresh, Auth/Rotation, Auth/Moves, Auth/Reuse, Auth/Revoked, Tokens/Roundtrip
--     Sessions/Laws, Sessions/Revocation    what the statements on the sessions do
--   Auth/Password      `change_password` of the service, and backend/app/core/password_policy.py
--     Password/Changed                                     the theorem on it
--   Auth/Login         `authenticate` of the service, and the handler `login_for_access_token` of
--                      backend/app/api/routes/auth.py; Login/Outcome the theorem on it
--   PasswordReset      the table password_reset_tokens; PasswordReset/Service is
--                      backend/app/services/password_reset_service.py, with its requests as
--                      transactions (backend/app/db/session.py)
--     PasswordReset/Inversion, Spent, SingleUse, Issue, Completion   the theorems on it
--   Auth/Resolve       the methods of the service that only read; Auth/Tokens/Proofs their tokens
--   Settings           the settings of the workers and of the task worker
--   Gateway/Remote     the methods of backend/app/gateways/http_incident_gateway.py on one incident, the
--                      statuses of backend/app/api/routes/incidents.py; Incidents/Routes the routes of
--                      incident-service/app/api/routes/incidents.py; Gateway/Remote/Agreement the theorem
--   Api                the HTTP interface of the Core Backend: responses, error codes, transactions;
--                      Api/Cookies is backend/app/core/auth_cookies.py, Api/Events
--                      backend/app/core/security_events.py (Redaction; Sensitive, and Safety the theorem)
--     Api/SignIn, Tokens, Passwords, Resets, Registration   the handlers of
--                      backend/app/api/routes/auth.py, with the delivery of a reset mail and the
--                      registration of a user; Replay, Logout, Proof, Uniform, FirstLogin the theorems
--     Api/Access       the guards of backend/app/api/dependencies.py; Api/Access/Guards the theorem
--   Authorization      backend/app/domain/authorization.py and
--                      backend/app/services/authorization_service.py; Authorization/Roles the theorems
--   ServiceIdentity    the tokens that one service sends to the other; ServiceIdentity/Provider is
--                      backend/app/core/service_identity.py, ServiceIdentity/Verifier is
--                      incident-service/app/core/service_identity.py, and each has its twin in the other
--                      service (service_token_provider.py, service_token_verifier.py)
--     ServiceIdentity/Accepted, ServiceIdentity/Roundtrip   the theorems on it
--   Execution          incident-service/app/repositories/dynamodb_incident_task_execution_repository.py:
--                      the record of one task, and each conditional update on it as one step
--     Execution/Ownership, Execution/Lease                  the theorems on it
--   Reconciler         incident-service/app/workers/incident_task_reconciler.py
--     Reconciler/Summary, Reconciler/Progress               the theorems on it
--   Incidents          incident-service/app/domain/incident.py and the statements of
--                      sqlalchemy_incident_repository.py; Incidents/Filters its queries
--     Incidents/Service, Incidents/Processing   incident-service/app/services/incident_service.py,
--                      incident_task_processing_service.py and the reconciler's transaction
--     Incidents/Requests   requests as transactions, incident-service/app/db/session.py
--     Incidents/Rows, Incidents/Invariants and its children   the theorems
--   Outbox             the two transactional outboxes, their repositories and relay services in
--                      incident-service/app; Outbox/Messages the messages and how they are added
--     Outbox/Worker    the transactions of incident-service/app/workers/incident_outbox_relay.py
--     Outbox/Rows, Outbox/Delivery, Outbox/Promises, Outbox/Drain   the theorems
--   Worker             lambdas/task-worker/src/task_worker: Worker/Store is execution_state.py,
--                      Worker/Handler the handler, the dispatcher and the processing handler
--     Worker/Acceptance, Worker/Batch                       the theorems on it
--     Worker/Envelope  incident-service/app/messaging/sqs_incident_task_publisher.py, with the theorem
--                      on the way from a new incident to the table of executions
--   Examples           one concrete run of each theorem
--
-- Units and bounds. A monotonic time is a whole number of nanoseconds, a datetime a whole number of
-- microseconds, a UUID a number that is only compared. Python's integers have no bound, and neither
-- have the numbers here; a difference that may be negative is an integer. Where a method takes a lock
-- for its whole effect it is one step, and the clock's reading inside it is an argument. The retry
-- loop recurses on the attempts that are left, so it needs no fuel.
--
-- Parameters. PyJWT, HMAC, UUID parsing, password hashing and Python's text methods are functions
-- of the records `Crypto` and `TextRuntime`; what the HTTP client does in each attempt, and what
-- other threads do to the shared breaker during a call, are arguments of `request`; what the
-- reconciler's processor answers, and whether an update of the table arrives, are arguments too.
-- A settings value that is a float in Python, such as the backoff, is a whole number here.
--
-- Not modelled: the lists of incidents, the routes of services, schemas, middleware, metrics,
-- logs, the settings of the services, the SQL engine (a statement acts on the list of rows, and a
-- row lock makes a service method one step), and what is between JSON and the schemas. The
-- requests to the Incident Service run one after another. JSON, the task schema and the
-- idempotency layer of the task worker are third-party code, and what they answer is an argument,
-- as are PyJWT and the keys of the service tokens in the record `Runtime`. The other services are
-- not modelled.
pub mod Prelude
pub mod Circuit
pub mod Gateway
pub mod Dict
pub mod Throttle
pub mod Api
pub mod Auth
pub mod Authorization
pub mod Execution
pub mod Outbox
pub mod Worker
pub mod Settings
pub mod ServiceIdentity
pub mod PasswordReset
pub mod Incidents
pub mod Reconciler
pub mod Examples
