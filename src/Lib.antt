-- ===== src/Lib.antt =====
-- SubmittedIt keeps a verifiable record of what a person has submitted to a site: a browser extension
-- captures a form, links the events of the submission into a chain of hashes, and a relay and a
-- contract anchor them. This library models the package that all of these share,
-- packages/receipt-core/src, which decides what a well-formed event, chain and receipt is, and what
-- of a form may be captured; the requests of packages/contract-client/src to the contract; and the
-- relay of apps/web/lib/relay, which pays for the anchoring of events within a daily budget.
--
-- The parts of receipt-core, and the files that model them:
--   errors.ts          Result: a function that may throw returns `ok` or the error's code and path.
--   types.ts           Types: records and data types; Types/Values gives the JavaScript object that a
--                      typed record is, and Types/EnumNames the strings of the enumerations.
--   normalize.ts       Normalize (text, hashes, versions, URLs, methods, integers),
--                      Normalize/Timestamp and Normalize/Calendar (RFC 3339 and `Date`), Text/Order.
--   sensitive.ts       Sensitive: the patterns of names that must not be captured.
--   schema.ts          Value/Read (`asRecord`, `assertKeys`, `parseEnum`, ...), Schema/Tables,
--                      Schema/Sorting, Schema/Form, Schema/Core, Schema/Envelope, Schema/State: one
--                      reader for each record, in the order of the source's statements.
--   canonicalize.ts    Canonical (`normalizeCanonicalValue`), Canonical/Json (`JSON.stringify`, UTF-8).
--   hash.ts            Hash: preimages with their domain, and their digests.
--   protocol.ts        Protocol: event hashes, envelopes, and the payloads to sign and to anchor.
--   lifecycle.ts       Lifecycle/Transitions, Lifecycle/Chain (`validateEventChain`),
--                      Lifecycle/Status (`deriveReceiptStatus`), Lifecycle/Receipts.
--   capture-policy.ts  Capture/Candidate and Capture/Policy (`applyCapturePolicy`).
-- The other parts:
--   packages/contract-client/src/index.ts  Contract: stages as numbers, and the anchor request.
--   apps/web/lib/relay/types.ts, errors.ts, and the tables of
--   apps/web/db/migrations/0002_relay_foundation.sql
--                      Relay/Types (rows and configuration), Relay/Database (statements on a key, and
--                      the trigger `enforce_relay_operation_update`).
--   apps/web/lib/relay/crypto.ts           Relay/Keys.
--   apps/web/lib/relay/validation.ts       Relay/Parsing (`parseRelayEventRequest`).
--   apps/web/lib/relay/relay-service.ts    Relay/Statements and Relay/Requests (one function for each
--                      SQL statement or transaction), Relay/Finalize, Relay/Sending, Relay/Reconcile
--                      (`#reconcile` and what it calls), Relay/Checks and Relay/Service (`relay`,
--                      `getOperation`), in the monad of Relay/Action; Relay/Steps has the statements
--                      as steps of the database.
-- A method of the relay reads and writes the database by these statements, and asks the chain and the
-- clock in between. Requests that are handled at a time share the database: what holds of every list
-- of steps holds of every interleaving of their statements. Relay/Ledger, Relay/Reserve and
-- Relay/Solvent are about the budgets; Relay/Guarded, Relay/Moves, Relay/Frozen and Relay/History
-- about the operations; Relay/Nonces and Relay/Assigned about the nonces; Relay/Evidence,
-- Relay/Traced and Relay/Tracing about the statements that a method makes and the answers of the
-- chain that justify them; Relay/Confirming about receipts; Relay/Retried, Relay/Limits and
-- Relay/Parsed about the requests that are admitted.
--
-- A function keeps its name, in snake case: `parse_event_core` is `parseEventCore`. An event envelope
-- is read by the schema, hashed by the protocol over the canonical text of its core, and linked by
-- the lifecycle; the capture policy makes the fields of an attempt, which the schema reads again.
--
-- The relay: a table is a list, in which a statement on a key meets the first row that has it, as
-- primary keys are unique; the unique columns that the code does not test, of public identifiers and
-- transaction hashes, are not compared. `GREATEST(0, a - b)` is subtraction on natural numbers. Times
-- are milliseconds, a date is the number of its day. The world (`Gateway`) answers the calls of the
-- chain, the clock and the generator of identifiers, and may change with each; a call that rejects
-- answers nothing. What is prepared carries the nonce it was prepared for, as in chain.ts
-- (`PreparesNonce`). An update that the trigger refuses throws, and a transaction that throws leaves
-- the database as it was. node:crypto, Buffer and the address test of viem are parameters.
--
-- Values: what the code receives as `unknown` is a tree (Value): JavaScript's values as far as the
-- readers can tell them apart. Strings are lists of UTF-16 code units. Numbers are integers, or one
-- value for all others. The platform is a parameter (Host): Unicode normalization, lower case of any
-- text, the URL parser, and Keccak-256; `IsLawful` is what the code relies on of it. A loop over an
-- array is a recursion over the list; the variables that a loop changes are a record (`ChainState`,
-- `PolicyState`).
--
-- Bounds: `print_decimal` runs on the number's successor as fuel, which is at least its number of
-- digits. The year of a day is searched downwards from its 365th part, the month from 12; both are
-- upper bounds, and the search ends at 0. Integers are tested against 2 ^ 53 - 1 as in the source.
--
-- Not modelled: cycles, accessors, symbols, hidden properties, array holes and negative zero, which
-- a tree does not have; the wording of messages; times before the year 0000, which the source refuses
-- too and which are 0 here. Of the relay: `parseEncryptedReceiptEnvelope`, logs,
-- the history table, `updated_at` and `state_version`; the blob service, the configuration, the
-- HTTP routes and the gateway itself, which are input and output. Of the contract's client: the
-- verification of anchors, the deployment and the ABI. The extension, the demo authority, the pages,
-- the contract and the user interface package are outside this library.
pub mod Common
pub mod Text
pub mod Result
pub mod Value
pub mod Host
pub mod Types
pub mod Normalize
pub mod Sensitive
pub mod Schema
pub mod Canonical
pub mod Hash
pub mod Protocol
pub mod Contract
pub mod Relay
pub mod Lifecycle
pub mod Capture
pub mod Stable
pub mod Tests
