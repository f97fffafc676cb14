-- ===== src/Lib.antt =====
-- A model of the openbao-plugin-secrets-onepassword secrets engine, with the theorems that make it
-- correct.
--
-- The engine serves the items of 1Password vaults from memory. For each vault it keeps a replica,
-- which a delta cycle brings in step with 1Password (list, compare, fetch what changed, apply).
-- A rate governor is asked before a cycle or a write spends a request and is told of every request
-- afterwards. Reads resolve an address in the replica and run a cycle first where the freshness
-- window has passed; writes go to 1Password and fold the returned item into the replica.
--
-- The files and the code that each of them models:
--   Prelude       Go's integers, times, maps and strings, as far as the engine uses them
--   Onepassword   the SDK's values and errors, as backend/*.go sees them
--   Client        backend/opclient.go: OPClient, chunkIDs, sdkClient.GetItems
--   Fake          backend/opclient_fake.go: the in-memory client, FakeOPClient
--   Config        backend/config.go: Config, validate, checkGuardrail
--   Classify      backend/governor.go: classifyError, rateLimitResumeAt and its pattern
--   Backoff       backend/governor.go: backoffDelay
--   Governor      backend/governor.go: the governor's state and methods (allow, recordRequest,
--                 recordSuccess, clientInitAllowed, recordClientInitResult, reconfigure, usagePct,
--                 isVaultFailing; snapshot in Governor/Status)
--   Probe         backend/governor.go: parseProbeOutput, probeNow, runProbeIfDue
--   Replica       backend/replica.go: vaultReplica and its methods
--   Cycle         backend/cycle.go: requestGate, doCycle; Cycle/Machine: its parts with requests
--                 between them; Cycle/Flight: runCycle
--   Address       backend/paths_item.go resolveItemFromSegments, backend/paths_field.go
--                 resolveFieldAddress and lookupField
--   Fields        backend/writes.go: normName, applyFields, setWebsite; Fields/Body: stringMap,
--                 sectionMap, parseFieldWrites
--   Engine        backend/backend.go: Backend, ensureClient, runVaultCycle, the vault directory,
--                 resolveVaultAddress, matchesAlwaysFresh, ensureItemFresh, ensureVaultWindowFresh,
--                 checkServeStaleAllowed (the last four in Engine/Freshness)
--   Writes        backend/writes.go: beginWrite, locateItem, fetchFresh, pathItemWrite,
--                 pathItemDelete, pathFieldWrite (handlers in Writes/Handlers)
--   Lifecycle     backend/config.go applyConfig, backend/backend.go loadPersistedConfig, coldStart,
--                 periodic, and backend/paths_invalidate.go
--   Settings      backend/paths_config.go pathConfigWrite and pathConfigRead, backend/config.go
--                 getConfigFromStorage and configResponseData, backend/backend.go initialize
--   Requests      backend/paths_item.go pathItemRead, itemResponseData and addReadMeta,
--                 backend/paths_field.go pathFieldRead, backend/writes.go pathItemExistence,
--                 backend/paths_refresh.go
--   Listing       backend/paths_vaults.go pathVaultsList, backend/paths_items.go
--                 pathVaultItemsList
--   Status        backend/paths_status.go pathStatusRead and unmatchedAlwaysFreshPatterns
--   System        backend/backend.go newBackend: every handler, tick and restart over one state
-- A child module holds part of a large component (Writes/Handlers), the proofs about its parent
-- (Cycle/Races, Governor/Window), or its tests. System/Closed names what a property of a replica
-- has to satisfy (IsClosed), and its siblings carry such a property through every handler.
--
-- How the code is written down here:
--   * Stateful code takes its state and returns the new one. A method that holds a mutex is one
--     step; `doCycle` gives up the replica's mutex on the way, so its last part, `apply_cycle`, is
--     a function of its own that is applied to the replica as it is by then.
--   * A time is a natural number of nanoseconds since Go's zero Time, a duration a signed int64
--     whose wrap-around is written out. Clock readings are arguments.
--   * A map is a list of pairs with distinct keys; its order stands for the order of one `range`.
--   * An error is a value. Where the code formats a message, the model keeps what it is made of.
--   * The other side of the SDK is a state `W` that only the calls of an `OpClient W` change. Code
--     that is not in the repository is an argument: Go's regexp.Compile, the floating-point
--     percentage of probeNow (its integer part, with its sign), the
--     output of the probe's command, the SDK's constructor and names, the draws of newID, the
--     framework's storage and JSON, and the parse and print of durations.
--   * Two floating-point tests are those of the exact numbers, in integers: `hourly >= 0.8 * limit`
--     as 5 * hourly >= 4 * limit, and the one of checkGuardrail as daily * interval <
--     4 * vaults * 86400 s, for an interval and a limit that are positive, as they are by then.
-- Loops are structural recursion. `chunk_loop` runs on fuel, one round for each ID, which is enough
-- since a round takes an ID at least (Client.Batches); `digits_fuel` has one round for each unit of
-- the number, more than it has digits.
--
-- Not modelled: the framework's path tables (patterns and help texts; the fields and defaults of
-- op/config are in Settings), the formatting of responses as JSON, the texts of errors, logging,
-- the plugin's entry point and the scripts. Requests are taken one at a time (System), but for the
-- interleavings of a cycle with other requests (Cycle/Races, Cycle/Interleave, Cycle/Machine; in
-- Cycle/Machine each move has its own pattern of path_split, in Cycle/Interleave it is fixed) and of
-- the callers of runCycle (Cycle/Flight).
pub mod Prelude
pub mod Onepassword
pub mod Client
pub mod Fake
pub mod Config
pub mod Classify
pub mod Backoff
pub mod Governor
pub mod Probe
pub mod Replica
pub mod Cycle
pub mod Address
pub mod Fields
pub mod Engine
pub mod Writes
pub mod Lifecycle
pub mod Settings
pub mod Requests
pub mod Listing
pub mod Status
pub mod System
