-- ===== src/Lib.antt =====
-- The frontend of the PostgreSQL visualizer (frontend/src), which shows what a collector observes of a
-- database while it works.
--
-- Parts and how they interact
--
--   Events arrive over a WebSocket (hooks/useWebSocket.ts), are kept in a store of the latest ones
--   (stores/eventStore.ts), and are turned into the data of the pages by
--   hooks/useVisualizationData.ts. Requests to the backend go through one client (lib/api.ts), which
--   leaves breadcrumbs with the error reporter (lib/errorReporter.ts); the reporter and the collector
--   of Web Vitals (lib/webVitals.ts) send their batches through the same client. The shell (App.tsx)
--   holds the workspace of projects, clusters and nodes, which it loads from the backend and saves
--   there, asks the backend to provision clusters, polls a snapshot of the database, and hands its
--   functions to the pages (components/), which keep forms of their own.
--
-- Files
--
--   Prelude, Prelude/*      what the source uses of JavaScript: lists, text, maps in insertion order,
--                           numbers, sorting
--   Events                  frontend/src/types/events.ts, and how the source reads an event's data
--   EventStore              frontend/src/stores/eventStore.ts; EventStore/History proves
--   Visualization/*         frontend/src/hooks/useVisualizationData.ts: Filters (as...Event), Buffers
--                           (buildBufferCells), Transactions (buildTransactionStates), Stages
--                           (buildWriteStages), Summary (useVisualizationData); Buffers/Counts, Buffers/Order and
--                           Stages/Statuses prove
--   Backoff                 backoff of lib/api.ts and backoffDelay of hooks/useWebSocket.ts
--   Breadcrumbs             the type Breadcrumb of lib/errorReporter.ts
--   Api/*                   frontend/src/lib/api.ts: Types, Errors (ApiError, extractMessage), Url
--                           (joinUrl), Client (request); Retry and Messages prove
--   Telemetry/Batch, Post   the queues and the request that lib/errorReporter.ts and lib/webVitals.ts
--                           share in form
--   Telemetry/Errors        frontend/src/lib/errorReporter.ts; History, Crumbs and Delivery prove
--   Telemetry/Vitals        frontend/src/lib/webVitals.ts; Ratings and History prove
--   Socket/*                frontend/src/hooks/useWebSocket.ts: Timers (the timer refs), Types (the hook's
--                           state and what the browser calls), Refs and Hook (its functions); Phases, Quiet and
--                           Attempts prove
--   Workspace/*             the edits of the workspace and the migration of stored projects in
--                           frontend/src/App.tsx, on the types of frontend/src/types/workspace.ts and
--                           frontend/src/types/cluster.ts; Templates is
--                           frontend/src/types/template.ts; Selection is the
--                           effect on the selection; Preservation, Links, Templates/Shape and
--                           Selection/Settles prove
--   LockGraph               buildLockGraphFromSnapshot of frontend/src/App.tsx; LockGraph/Cycles is
--                           detectCycle of frontend/src/components/lock/LockGraphView.tsx; Direction and
--                           Cycles/Absence, Termination and Soundness prove
--   Provision/*             the provisioning of clusters in frontend/src/App.tsx: Backend (the requests), Task
--                           (the task bar; the setters' effects run within the step that sets), Create
--                           (handleTemplateConfirm); Named, Cache and Create/Rollback
--                           prove
--   Sync                    the load, the delayed save and the reload of the workspace in
--                           frontend/src/App.tsx; Sync/Saves proves
--   ClusterHome/*           frontend/src/components/workspace/ClusterHomeView.tsx: Edges and Detail (a selected
--                           edge), Imports (the handlers that find and import nodes), Editing (the forms);
--                           Topology and Imports/Outcomes prove
--   Memory                  frontend/src/components/memory/MemoryStructView.tsx; Memory/Counts and Latest
--                           prove
--   Snapshot                buildTransactionsFromSnapshot of frontend/src/App.tsx; Snapshot/Polling is its loadSnapshot
--                           and the labels of the task bar
--   ComponentHome           frontend/src/components/workspace/ComponentHomeView.tsx; Toggles proves
--   NodePage                frontend/src/components/node/NodeHomeView.tsx; NodePage/Saving proves
--   Hosts                   frontend/src/components/workspace/HostManagementView.tsx; Hosts/Forms proves
--   Connection              frontend/src/stores/pgStore.ts and
--                           frontend/src/components/connection/ConnectionManager.tsx; Connection/Profiles
--                           proves
--   Boundary                frontend/src/components/common/ErrorBoundary.tsx; Boundary/Stacks proves
--   Statistics              computeStats of frontend/src/components/buffer/BufferHeatmapView.tsx, and the
--                           figures of frontend/src/components/workspace/ProjectHomeView.tsx and
--                           frontend/src/components/clog/CLOGViewer.tsx; Statistics/Totals proves
--   Console                 frontend/src/components/sql/SQLConsole.tsx
--   Telemetry/Handlers      installGlobalErrorHandlers of frontend/src/lib/errorReporter.ts;
--                           Handlers/Single proves
--   Each Tests module runs the definitions on concrete inputs.
--
-- How the code is read
--
--   Module variables, stores and refs are fields of a record that is passed on; an asynchronous
--   function is what it does until its promise settles. What the browser answers (fetch, the abort
--   signal, random numbers, the entries of observers, the clock) is an argument. In the client JSON.parse
--   is the parameter `parse_json`, of which nothing is assumed; for the cached task `TaskJson` has
--   JSON.stringify and JSON.parse with the two laws that are used: what is written is read back, and is
--   not empty. An effect of React runs as part of the step that changes what it depends on; a handler
--   that awaits answers is split into what it does before (`begin_...`) and after (`settle_...`).
--
--   Numbers are natural numbers below 2^53 or NaN. `Number(text)` is modelled on unsigned decimals and
--   blank text, and gives NaN on other text. An event's data holds scalars; its members are looked up
--   by name, and a state is not the name of a member of Object.prototype. A stored threshold is an
--   integer. Vitals are whole thousandths, and a first input is not processed before it starts.
--   The length of a text counts UTF-16 units.
--   Where a key is NaN the order that `sort` leaves is not stated by any theorem. `Math.random()` is a
--   fraction below one. New ids are arguments. A patch of a node or cluster changes no id, and what a
--   cluster's record has no field for is left out of the spread.
--
-- Bounds and fuel
--
--   The loop of `request` has `maxRetries + 1` rounds left at its start, which is what its condition
--   allows; `fell_through` is the `throw` behind it. The other loops are structural.
--   The connection's runs are lists of what the browser does, of any length. The depth of the search
--   `dfs` for cycles is bounded by fuel; fuel for more than the number of nodes is enough, as is proved.
--
-- Not modelled
--
--   The React components' rendering and their drawing with d3, styles, text in two languages; the
--   installation and removal of the observers of Web Vitals; the choice of the page, scrolling and
--   the fields' own setters; the Go backend, the Rust collector and its
--   probes, the desktop shell, deployment, and tests.
mod Prelude
pub mod Events
pub mod EventStore
pub mod Visualization
pub mod Backoff
pub mod Breadcrumbs
pub mod Api
pub mod Socket
pub mod Provision
pub mod Sync
pub mod Boundary
pub mod Telemetry
pub mod Workspace
pub mod LockGraph
pub mod ClusterHome
pub mod ComponentHome
pub mod NodePage
pub mod Statistics
pub mod Console
pub mod Hosts
pub mod Connection
pub mod Memory
pub mod Snapshot
