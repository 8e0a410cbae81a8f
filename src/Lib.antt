-- ===== src/Lib.antt =====
-- Verification library of SeshatOps, a read-side platform for a synthetic ERP.
--
-- An ERP writes events to an outbox, a relay publishes them to a log, and a consumer projects them into
-- an inventory table and four lineage tables. Each event travels as JSON in one envelope. Modelled here
-- are the event contract (package event), the orders and hops of the ERP (package erp), the relays (package relay),
-- the consumer (package platform) and sign-on with its authorization policy (package identity),
-- and the gate of the operator controls (package api).
--
-- Base: shared types and lemmas. Base/Int64 is the int64 of Go, with its wrap-around; Base/Result the
-- errors as values; Base/Table the SQL statements on lists of rows; Base/Lists byte strings.
--
-- Event (event/*.go):
--   Event/Text       envelope.go: UTF-8, the identifier and timestamp tests (require…)
--   Event/Payload    families.go: the payload families and the Envelope
--   Event/Validate   envelope.go, families.go: Validate and validateAgainst; below it the contract that
--                    they decide
--   Event/Json       parse.go: decodeValue, decodeObject, parseIntegerNumber, on the tokens
--   Event/Unicode    unicode.go: the scan for unpaired surrogate escapes
--   Event/Decode     parse.go, families.go: envelopeFromObject and payloadFromObject
--   Event/Canonical  content_hash.go: the canonical bytes and the content hash
--   Event/Parse      parse.go: Parse
--
-- Platform (platform/*.go):
--   Platform/World      migrate.sql and process.go: the rows, the dispositions, the errors
--   Platform/Monad      code that talks to the database and may fail, and its transactions
--   Platform/Store      process.go: the statements on the inbox and the inventory projection
--   Platform/Projection process.go: applyProjection; Advance is its specification
--   Platform/Lineage    lineage.go: applyLineage and applyEvent
--   Platform/Process    process.go: processValidated, quarantineInbox
--   Platform/Failure    process.go: processing_failures and the attempt budget
--   Platform/Redrive    process.go: redriveGaps
--   Platform/Record     process.go: ProcessRecord
--   Platform/Consume    consume.go: ConsumeOnce, and runs of it
--
-- Relay (relay/claim.go, relay/publish.go):
--   Relay/Backoff    BackoffAfterAttempts, and the delay in the SQL of ReleaseTransient
--   Relay/Claim      ClaimDue, MarkPublished, ReleaseTransient, Quarantine, ReleaseQuarantined
--   Relay/Runs       any sequence of these operations, in which each sees the table of the one before
--   Relay/Publish    publish.go: publishOne and DrainOnce; below it, several relays on one outbox (Fleet)
-- The rows are in the order of created_at; one claim runs at a time, as SKIP LOCKED keeps claims apart.
--
-- Erp (erp/*.go):
--   Erp/Checks    accept.go: requireUUID and the other string checks, written beside those of event
--   Erp/World     migrate.sql and errors.go: the tables, the errors, a transaction
--   Erp/Outbox    outbox.go: insertPendingOutbox, parentOutboxEventID, requireCausation
--   Erp/Orders    accept.go: AcceptOrder
--   Erp/Sources   lineage.go: RegisterSupplier, ReceiveIngredientLot, ProduceProductionBatch,
--                 DispatchShipment
--   Erp/Ledger    any sequence of these commands, and the books of an item
--
-- System: the ERP and the relays on one outbox, their steps interleaved.
--
-- Identity (identity/*.go):
--   Identity/Matrix     matrix.go: the frozen permission matrix
--   Identity/Directory  directory.go: the membership rows, Assign and Clear
--   Identity/Policy     policy.go: Policy.Allow
--   Identity/Sessions   store.go and session.go: the sessions and the pending logins
--   Identity/Audit      audit.go: AppendDecision
--   Identity/Login      handler.go, authenticator.go and middleware.go: login, callback, logout, session
--
-- Api/Controls (api/controls.go): authorizeControl, which asks the policy and records its decision.
--
-- The state of Platform is a `World`: the tables, the updates announced to subscribers, and what the surroundings
-- will do. An action `M A` takes a world to a result and a world. Each call of the database driver takes
-- its outcome from a list: it succeeds, it fails, or, for a commit, it takes effect and the answer is
-- lost; so a statement about every world is one about every pattern of faults. A transaction that fails
-- puts the tables back. One transaction runs at a time: the code locks the rows that it reads.
--
-- Parameters, for code that is not of the repository:
--   lower      unicode.ToLower outside ASCII
--   tokens     what the tokenizer of encoding/json returns, in turn, for an input
--   hash       the hexadecimal SHA-256
--   svc        the OIDC library: the login URL, the exchange of a code, the verification of a token
--   recovered  what json.Unmarshal reads of the identity fields of a malformed input
-- The broker appears to the relay as an outcome for each record that it produces, and a topic; to the
-- consumer as what a poll returned and whether the commit of offsets succeeded; the
-- random source as a list of identifiers, or as the draws of each request.
--
-- Fuel: decodeValue takes one more than the number of tokens; the scan of the escapes one more than the
-- number of bytes; redriveGaps one more than the number of gap rows of the inbox.
--
-- Not modelled: the seed data of the ERP, the listing of the audit rows, forecasting, rebuild and checksums, the rest of the HTTP API,
-- observability, bootstrap and the command, and the web front end. Columns that nothing reads
-- (created_at, updated_at, the constant consumer_name) are left out, as are hooks that only tests set,
-- except for the fault of a handler.
pub mod Base
pub mod Event
pub mod Platform
pub mod Api
pub mod Erp
pub mod Identity
pub mod Relay
pub mod System
