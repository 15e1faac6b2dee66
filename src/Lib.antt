-- ===== src/Lib.antt =====
-- VisiOnRoute is a multi-tenant service for vehicle fleets: devices send events, a pipeline turns
-- them into trips and safety events, and people review those events and coach drivers. The
-- services of src/visionroute/application work on rows of a PostgreSQL database through one
-- session per request.
--
-- Parts, by file:
--   Prelude: shared names, queries and updates of tables, moments in time.
--   Tx: the session of a request (src/visionroute/api/deps.py `_open_session`) as a state of what
--     is durable and what is current. A method is an action that returns or raises; the request
--     commits or rolls back. Tx/Rules and Tx/Triples are the rules to reason about actions.
--   Access: src/visionroute/domain/permissions.py and application/context.py.
--   Audit: src/visionroute/application/audit.py.
--   Coaching: src/visionroute/domain/coaching.py and application/coaching/service.py. Commands
--     holds `create_action`, Changes holds `update_action` and `transition`; Shape states the
--     invariant, Create, Update and Stages prove it of each command, Requests of sequences; Moves is
--     about the answers of `transition`.
--   Identity: src/visionroute/application/identity/service.py. Login holds `authenticate`,
--     Sessions `start_session` and `logout`, Rotation `rotate_refresh_token`; Families states the
--     invariant of the sessions, Closing, Rotating, Rotated and Succession prove it of the parts
--     of a rotation, Requests of each request, Guarantees of sequences.
--   Account: src/visionroute/application/identity/account_security.py, domain/passwords.py and
--     infrastructure/security/totp.py. Tokens holds password resets and the verification of
--     e-mails, Factors the second factors, Challenges the second step of a login, Enrollment the
--     changes of the factor; Base holds what they share, with `enqueue` of
--     application/mail/service.py. Single, Requests and Resets prove the tokens, Refusals and
--     Guessing the challenges, Replays the factors.
--   Invitations: the invitations of src/visionroute/application/identity/service.py, with the user
--     limit of application/saas/service.py. Joining is about their acceptance, Resending
--     about their links, Limits and Members about the limit.
--   Ingestion: src/visionroute/domain/ingestion.py and application/ingestion/service.py. Defs has
--     the rows and the two writes, Batch the pipeline, Dedup, Steps, Replay and Again the lemmas.
--   Mail: src/visionroute/application/mail/delivery.py.
--   Worker: the outbox part of src/visionroute/worker/runner.py.
--   Privacy: src/visionroute/domain/privacy.py and application/privacy. Retention holds the rules of
--     retention, Service the calls of the API, Processor the work on requests, Erasing the erasure of
--     a driver, Purge the deletion of old data. Runs interleaves the calls and the transactions of the
--     workers, Evolution is the abstract life of a request, Effects, Singles, Lifecycle and Histories
--     show that the steps follow it; Retained, Erasure and Purged are about the rest.
--   Saas: the entitlements and the vehicle limit of src/visionroute/application/saas/service.py and
--     domain/usage.py, with `create_vehicle` of application/fleet/service.py, which they guard.
--   Safety: src/visionroute/domain/safety.py, for any numbers, and application/safety/engine.py.
--     Kinds, Spacing and Counting are about the rules, the distance of events and their counts.
--   Fleet: the drivers, devices and assignments of src/visionroute/application/fleet/service.py.
--
-- A table is a list of rows, a query is the first row that passes a test, a unique index is a
-- test before an insertion. Identifiers, digests and tokens are numbers; a moment is a number of
-- microseconds. The clock, fresh identifiers, random tokens, methods of texts and what other
-- libraries do (floating-point numbers, password and token digests, schema validation,
-- decryption, templates, the mail server, the object storage) are arguments. Concurrency is
-- modelled where the code handles it: what other transactions commit between the look-up and the
-- insertion of `create_action` is an argument, the privacy workers' transactions come in any
-- order between the calls of the API, and an event of the outbox has its savepoint; elsewhere
-- requests and runs of a worker come one after another. No function needs fuel: every loop is
-- over a list, or over a number of rounds that the code fixes (40 batches of a purge, three time
-- steps of a code).
--
-- Not modelled: the widths of text columns, where the database refuses a longer text (a rejected
-- envelope whose identifier has more than 200 characters fails its batch), the HTTP layer,
-- changes of plans, the archives of exports and the erasure of users, telemetry, reviews and
-- scores, notifications, evidence, reports, the rest of the fleet and demo data.
pub mod Prelude
pub mod Access
pub mod Tx
pub mod Audit
pub mod Coaching
pub mod Identity
pub mod Account
pub mod Invitations
pub mod Ingestion
pub mod Mail
pub mod Worker
pub mod Privacy
pub mod Saas
pub mod Safety
pub mod Fleet
