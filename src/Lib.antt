-- ===== src/Lib.antt =====
-- A model of the logic of secure-collab-app, a spreadsheet and table application on end-to-end
-- encrypted Matrix rooms, and what is proved of it.
--
-- The parts of the program that are modelled, and where.
--
-- The billing worker, billing/src/index.ts, is a Cloudflare worker that locks and deletes accounts
-- of the Matrix Authentication Service (MAS) by what Stripe says of their subscriptions. Its parts
-- share no state but these two services, which are parameters: `Services` in Billing/Services.antt
-- has one operation for each request that the code makes, with any state behind it. Each request
-- that changes something there is also recorded in `World.sent`, so that a theorem can say what was
-- sent, and in which order.
--   Billing/Mas        masAdminToken, masGetUser, masListUsers, masSetLockById,
--                      masUnlinkUpstream, masDeactivateById
--   Billing/Stripe     activeSubscriptionFor, subscriptionIndex
--   Billing/Sweep      days, sweep
--   Billing/Http       the requests and answers, authenticate
--   Billing/Standing   subscribe, success, status
--   Billing/Account    checkout, portal, deleteAccount
--   Billing/Webhook    webhook
--   Billing/Routes     fetch, scheduled
--   Billing/Trace      what it means that code sends a plan of requests, or an initial part of it
-- Errors are thrown through the monad of Exec.antt, where `throw`, `try` and `catch` of the source
-- are `throw`, `attempt` and `recover`.
--
-- FractionalIndex is ui/src/fractionalIndex.ts: midpoint, generateKeyBetween, generateNKeysBetween
-- and computeReorderWrites. A key is the list of the numbers of its digits, 0 to 61; a throw is none.
--
-- Filters is ui/src/lib/filters.ts: Filters/Values has the values of cells and conditions,
-- Filters/Dates weeks and spans, Filters/Matching matchesCondition and applyFilters.
--
-- StoreReaper is ui/src/lib/storeReaper.ts: retireStore and reapStores over an item of localStorage.
--
-- Worker is the SharedWorker's side of ui/src/worker, which owns the one Matrix client that all tabs
-- use. A handler that awaits is several steps, up to the await and from there on, so that other
-- requests can come between; a build in flight has a ticket.
--   Worker/Protocol     names and shapes of protocol.ts
--   Worker/State        what the dispatcher of dispatch.ts holds
--   Worker/Sessions     createSession, install, destroySession
--   Worker/Handles      resolveTarget
--   Worker/Persistence  persistOutbox, persistSnapshot, scheduleSnapshot, flushPersistence; a write of
--                       a store is queued where the code starts it
--   Worker/Workspaces   openWorkspace and the callbacks of a workspace
--   Worker/Push         read, parseIds, materialize, pushState
--   Worker/Requests     run, toCloneable, queueStateFor
--   Worker/Server       handle, with the requests that are still awaited, and disconnect
--   Worker/Ports        post, drop and broadcast of matrixWorker.ts
-- The state pushed to a tab is a record, where the code sends its JSON text. Stores has what
-- Worker/Persistence writes to: ui/src/lib/outboxStore.ts and snapshotStore.ts, over a database that
-- may not open or commit and a cipher that is a parameter.
--
-- Client and Proxies are the tab's side of ui/src/worker. Client is the tables of client.ts, with the
-- requests of Worker/Requests; Proxies/Workspace is workerWorkspace.ts, Proxies/Session is
-- workerSession.ts, and Proxies/Calls is the calls that both send on.
--
-- AtRest is what is kept sealed in the browser. WebCrypto, the random bytes, UTF-8, base64 and JSON
-- are parameters, and a sealing takes a number for its random bytes.
--   AtRest/Base64      b64urlEncode and b64urlDecode of ui/src/lib/atRestCrypto.ts
--   AtRest/Keys        its other functions: derived keys, sealed texts and the wrapped data key
--   AtRest/Envelope    what is proved of the data key and of a snapshot that it seals
--   AtRest/Passkeys    ui/src/lib/passkeyWrap.ts
--   AtRest/DeviceKey   ui/src/lib/deviceKey.ts, over an IndexedDB database that may fail
--
-- Accounts is ui/src/hooks/useAuth.ts. Its React state and refs, and the items of the browser's
-- storage, are one record, `App`; an operation is a function on it that may throw and leaves what it
-- did before. A session is what its methods return, and what builds one is a parameter.
--   Accounts/Storage     loadAccounts, saveAccounts, the active account and the workspaces
--   Accounts/Sealing     sealDataKey, persistSessionBlob and what marks an entry
--   Accounts/Recovery    bootstrapWithKey, ensureHistoryAccess, submitRecoveryKey
--   Accounts/Restore     restoreSession, restoreWithDeviceKey, unlockAndRestore, the restore on mount
--   Accounts/SignIn      completeSignIn, signIn, signUp
--   Accounts/Leaving     signOut, switchAccount, removeAccount, resetApp
--   Accounts/Workspaces  createWorkspace, joinWorkspace, refreshWorkspaces, acceptInvite
--   Accounts/Keeps       a property of the pool that a sealing and a list of rooms keep is kept by the
--                        operations that do no more
-- An operation runs to its end before the next one, and each state update runs where it is called.
-- Storage that refuses, timers and log lines are left out; a restore that takes too long is an error
-- of it. Accounts uses AtRest, StoreReaper and AuthErrors.
--
-- Kanban is ui/src/views/kanban/kanbanUtils.ts, and Reference is ui/src/lib/referenceLookup.ts,
-- AuthErrors is ui/src/lib/authErrors.ts, and Changelog is ui/src/lib/changelog.ts.
--
-- Prelude and Assoc are what the others share: texts, lists, integers, and a JavaScript Map with
-- text keys.
--
-- Choices of the model.
-- - Numbers are exact. A JavaScript number that stands for days or milliseconds is an integer or NaN;
--   the numbers of cells are a parameter with their comparisons.
-- - A time is the value of Date.parse or Date.now; one run of the billing worker has one time,
--   since the clock of a Cloudflare worker stands still between requests.
-- - Fuel: the two loops over pages have a bound of 100 in the source, and take it as their fuel.
--   `midpoint` has fuel for the lengths of its bounds and three more, and a series of n keys has
--   n + 1, which the theorems on both show to be enough.
-- - Log lines, HTML, headers and the texts of most error messages are left out or abbreviated.
--
-- Not modelled: the React interface and its other hooks (ui/src/hooks, ui/src/views,
-- ui/src/components), in useAuth.ts the sign-in by OAuth, the enrolment of a passkey, the reset of an
-- account, device verification and operations that overlap, the calls of WebAuthn, and the Rust
-- crates, which run as the wasm module that Worker and Accounts take as a parameter.
pub mod Prelude
pub mod Accounts
pub mod Assoc
pub mod AtRest
pub mod Exec
pub mod Billing
pub mod FractionalIndex
pub mod Filters
pub mod StoreReaper
pub mod Kanban
pub mod AuthErrors
pub mod Changelog
pub mod Reference
pub mod Stores
pub mod Client
pub mod Proxies
pub mod Worker
