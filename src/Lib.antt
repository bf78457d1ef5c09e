-- ===== src/Lib.antt =====
-- The core logic of the browser client of the affiliate platform (frontend/src), modelled and proved
-- module by module. The client keeps a session of tokens and a workspace in the tab, sends every
-- request through one HTTP client that refreshes the access token when it must, keeps the queue of
-- posts fresh by a stream of events with polling as a fallback, publishes and schedules posts, searches
-- for products and imports them, and holds the state of the content studio, of the product inventory
-- and of the settings forms.
--
-- The parts, and the files of the client that they model:
--   Prelude      shared names: tests on numbers, texts, lists, ids, maps, stable sorting, and loops of
--                requests that end at the first one that throws (Loops)
--   Session      frontend/src/services/session.ts: tokens, workspace, cookie, listeners
--   Workspace    frontend/src/lib/workspace.ts and workspace-query-sync.tsx: usable workspace ids,
--                scoped paths, scoped query keys, the clearing of the cache on a switch (Cache, with the
--                settings that useWorkspaceSettings.ts writes to the cache)
--   ApiClient    frontend/src/services/api-client.ts: both interceptors, the shared token refresh
--   Selection    the selection of rows, written alike in useQueue.ts and useProducts.ts
--   Queue        frontend/src/features/queue:
--     Types        types/api.ts, types/events.ts
--     Keys         queueKey and queueAttemptsKey of hooks/useQueue.ts, and the comparison of keys
--     Events       getQueryKeysForQueueEvent of lib/queue-event-invalidation.ts
--     Invalidator  createDebouncedQueueEventInvalidator of the same file
--     Polling      lib/queue-polling.ts
--     Operations   lib/operations.ts and lib/retry.ts
--     Publishing   useQueuePublishingOperations of hooks/useQueue.ts
--     Listing      useQueueWorkspaceState of hooks/useQueue.ts
--     Concurrency  mapWithConcurrency of hooks/useQueue.ts
--     Enrichment   useQueueAttemptSummaryEnrichment of hooks/useQueue.ts
--     View         components/QueueView.tsx: the state of the page and (Handlers) its handlers
--     Stream       createQueueEventStream of lib/sse-client.ts
--     Realtime     hooks/useQueueEventStream.ts and hooks/useQueueRealtimeInvalidation.ts
--   Studio       frontend/src/features/ai: types/session.ts (Types), lib/session.ts, and
--                hooks/useContentSession.ts; lib/document.ts (Document)
--   Products     frontend/src/features/products: hooks/useProducts.ts, lib/inventory.ts, and
--                components/ProductsView.tsx (View)
--   Discovery    frontend/src/features/discovery:
--     Types        types/api.ts
--     Normalize    lib/normalize.ts, lib/ui-prefs.ts
--     Session      lib/session.ts, and useDiscoverySession of hooks/useDiscovery.ts
--     Selecting    useDiscoverySelection of hooks/useDiscovery.ts
--     Api          api/discovery.api.ts, and the bodies of image searches
--     View         components/DiscoveryView.tsx: its runs and effects, and (Screen) what it shows
--     Actions      the handlers of the same page that act on products
--   Auth         frontend/src/features/auth/hooks/useAuth.ts, components/AuthGuard.tsx, and
--                frontend/src/middleware.ts
--   Settings     frontend/src/features/settings: lib/mapApiErrors.ts, the six forms of
--                components/WorkspaceSettingsView.tsx
--   Csv          the exports: lib/export.ts of the products and of the discovery
--
-- How they interact: Workspace reads and writes the Session; the ApiClient reads tokens and workspace
-- there and clears it; the Queue is keyed by the workspace; the Invalidator turns the events that the
-- Stream delivers into keys of queries; Realtime turns the reports of the Stream into a status, a
-- refetch after a reconnection, and the switch to Polling; Listing and Products share the Selection.
-- The page of the queue publishes by Publishing and selects by Listing; Enrichment starts the workers of
-- Concurrency after each new list; the discovery keeps its Session in the tab, creates posts of the
-- queue, and exports by Csv; Auth writes and clears the Session, whose cookie the middleware reads.
--
-- How the code is translated: state is a record, an operation is a function that returns the new
-- state, and where it acts on the outside (a request, a rejection, a report) the list of these
-- effects. What happens between two awaits is one step; the answer of the server, a timeout that runs
-- or an abort is an event or an action, and theorems about runs hold for every list of them, so that
-- no fuel is needed and every function is total. Numbers are natural numbers: the counts and the times
-- of this code are never negative, and none of them comes near the limit of exact numbers in
-- JavaScript. A text that may be null or undefined is an Option. Maps and records keyed by texts are
-- association lists in the order of insertion.
--
-- What is outside is a parameter: the URL parser, Object.is on fetched data, Date.parse, the clock, the
-- calendar, toLocaleLowerCase, Math.random (as the rounded jitter), crypto.randomUUID (as a fresh id,
-- which is assumed where it matters), JSON, the printing and reading of numbers, toUpperCase,
-- encodeURIComponent, regular expressions, the library of the forms and the answers of the server. The
-- Arabic texts that the client shows stand here in English.
--
-- Not modelled: the rendering with React and Next.js, the queries of TanStack Query (their keys and
-- invalidations are), the schemas of the forms, the copy of a third-party parser of server-sent events
-- in frontend/src/features/queue/lib/sse-client.ts (its callbacks are events of the Stream), the page
-- of channels, the scores of generated texts, the dashboard, and the backend, which is written in
-- Python.
pub mod Prelude
pub mod Session
pub mod Workspace
pub mod ApiClient
pub mod Selection
pub mod Queue
pub mod Studio
pub mod Products
pub mod Discovery
pub mod Auth
pub mod Settings
pub mod Csv
