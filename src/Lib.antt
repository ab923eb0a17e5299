-- ===== src/Lib.antt =====
-- The stores, the core, the guard and the session token of authmodules, verified.
--
-- authmodules is an authentication library in packages. The core runs auth operations over ports;
-- a store port keeps accounts, identities, credentials, sessions and challenges, a transaction port
-- groups calls of it, and an outbox port keeps the deliveries that a worker sends later. This
-- library models the in-memory implementation of those three ports, packages/testkit/src/stores,
-- the guard that keeps failed attempts in memory, and of the core what stands on its ports alone:
-- sessions, account resolution, policy and the guarding of attempts; and the two packages that make a
-- session token and carry it in a cookie. The types that they exchange are those of
-- packages/contracts/src.
--
-- Which file models which part:
--   Prelude, JsMap: Boolean tests, lists, texts as UTF-16 code units, and the Map of JavaScript as
--     an association list in insertion order.
--   Contracts: the records, failures and values of packages/contracts/src; Contracts/Values also
--     the tests on texts and secrets, and Contracts/Json the JSON checks with their budget, of
--     record-validation.ts and outbox-validation.ts. Contracts/Json/Print is JSON.stringify, as the outbox uses it.
--   Memory/RecordValidation: record-validation.ts, and snapshotRecord of state.ts.
--   Memory/State: the MemoryState of state.ts, its keys and status transitions. A Cell is a stored
--     object; its number stands for the identity that `===` compares.
--   Memory/Accounts, Identities, Credentials, Sessions, Challenges: accounts.ts and so on, one
--     function for each method, from the state that memoryStateFor gave to a result and a state.
--     Memory/Cleanup is the loop that two of them share.
--   Memory/Moves, Steps, Directory, WellFormed, History: what each call may change, the invariant,
--     and sequences of calls.
--   Memory/World: which object a call reads and changes (memoryStateFor, memoryOutboxStateFor).
--   Memory/Merge, Memory/Transaction: mapsMatch, hasConflict and applyChanges, and the run of
--     transaction.ts as its start, the calls between, and its end. Its queue admits one
--     transaction at a time.
--   Outbox: memory-outbox-store.ts and outbox-validation.ts. Outbox/Retention is cleanupTerminal.
--   Core: packages/core/src. Core/Errors and Core/Views are shared/errors.ts and views/records.ts.
--     Core/Ports is the configuration of the core (CreateAuthConfig): each port is a function on a
--     world of any type, which answers, refuses, throws or answers a value of another type; so a
--     theorem over Core/Ports holds of every store, token format, policy, guard and clock. Core/Run is
--     how an operation ends on such a world. Core/Validation is validation/input.ts, token.ts,
--     method.ts and store.ts; Core/Policy is policy/check.ts, events/emit.ts and shared/context.ts,
--     id.ts and time.ts; Core/Attempts is attempts/guard.ts; Core/Sessions is operations/session.ts;
--     Core/Accounts is accounts/resolve.ts. Contracts/Auth has the types that they exchange.
--   Guard: packages/guard-memory/src/guard. Guard/Heap is the heap of expirations, with heapPush and
--     heapPop; Guard/Attempts is validation.ts and the rest of create-memory-attempt-guard.ts.
--     Guard/Pruning, Guard/Lockout and Guard/Bounds prove what they say.
--   Token: Token/Opaque is packages/token-opaque/src over a cryptography provider, which is a
--     parameter; Token/Cookie is packages/carrier-cookie/src. Token/Carried
--     is about the two together.
--   Tests: the theorems at concrete stores, ports, guards and tokens.
--
-- Numbers are natural: a Time counts milliseconds from the earliest Date, an invalid Date is a
-- value of its own. A version counts up to 2^53, where a JavaScript number stays when 1 is added;
-- the numbers of calls, leases and transactions grow without that bound.
-- Loops go along a list or a map, but for three of the guard, which run on fuel: heapPush has as much
-- as the heap has entries, heapPop as many, and pruneExpired one more than the heap has entries;
-- Guard/Heap/Laws and Guard/Pruning show that it is enough. cloneRecord is the identity on values of
-- these types, since nothing in the model is shared and mutated but the maps.
--
-- Not modelled: values of another shape than their type (unknown keys, wrong types), which the
-- validators refuse; localeCompare, which is a parameter of Outbox/Retention; the
-- operations of the core that invoke methods (authenticate, enroll, begin, complete) and their
-- transactions, the methods, the worker, the cryptography of Node, the adapters and the Postgres store.
pub mod Prelude
pub mod JsMap
pub mod Contracts
pub mod Memory
pub mod Outbox
pub mod Core
pub mod Guard
pub mod Token
pub mod Tests
