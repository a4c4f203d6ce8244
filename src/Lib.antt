-- ===== src/Lib.antt =====
-- The control plane of LabForge, as a model of what it does to its store and of the calls it makes.
--
-- The program (packages/control-plane) hands out labs: containers or virtual machines on a fleet of Docker
-- hosts, one row of the table of instances for each. A request for a lab goes to the orchestrator, which
-- reuses a lab of the user, claims a warm spare, or provisions a fresh lab on a node that the scheduler
-- picks. Two loops work on the same table: the reaper ends or suspends what has expired or is idle, and the
-- warm pool keeps spares. Both go through the orchestrator, which goes through the cache of runtimes to
-- the hosts, and records usage events. A student comes with the signed link of a launch; the redeem route
-- checks it, finds or acquires the lab, and answers with a session cookie, which the wildcard proxy (or
-- Traefik, through forward-auth) checks on each request to the lab.
--
-- Files, and what they model (paths from the root of the repository):
--   Data            packages/control-plane/prisma/schema.prisma (tables), packages/shared/src/index.ts
--                   (template specs), packages/control-plane/src/runtime/types.ts (requests, results)
--   World           the state: the tables, the module-level variables of runtime/nodes.ts (runtimeCache,
--                   sshKeyCache, rrCursor, rrCursorsByPool) and wildcardProxy.ts (resumingNow), and
--                   the calls made so far
--   Table, Store    the queries and writes made through Prisma; metering.ts (recordUsage, emitUsage)
--   Nodes           packages/control-plane/src/runtime/nodes.ts: Runtimes (buildDockerClient,
--                   getNodeRuntime, invalidateNodeRuntime), Names (resolveNodeNamesToIds), Pick
--                   (pickLeastLoadedNode), Resolve (resolveNodeForProvision)
--   Guacamole       packages/control-plane/src/runtime/guacamole.ts: the credentials of an instance, and
--                   Mapping (renderUserMappingXml, rowsToJdbc)
--   Orchestrator    packages/control-plane/src/orchestrator.ts: Viewer (resolveViewer, safeParseSpec,
--                   effectivePersistPaths, computeVolumeName), Hosts (runtimeFor; rmOverlayDir of
--                   runtime/nodeShell.ts), Sync (syncInstanceUpstream), Lifecycle (suspend, resume, restart,
--                   waitUntilReady, extend, logs), Destroy (destroyInstance), Provision (provisionNew),
--                   Acquire (acquireInstance, claimPrewarm), Reconcile
--                   (reconcileActiveInstanceNetworkingDrift)
--   NodeHealth      packages/control-plane/src/nodeHealth.ts (pollAllNodes), and pingNode of runtime/nodes.ts
--   Web             what the routes take from libraries (jose, node:crypto, URL), and their replies
--   Tokens          packages/control-plane/src/auth/jwt.ts
--   Launches        packages/control-plane/src/routes/launches.ts (create, revoke, regenerate, preview-url);
--                   Prepare is the route of that name
--   Batches         packages/control-plane/src/routes/batches.ts (revoke, terminate, purge, prepare)
--   Redeem          packages/control-plane/src/routes/redeem.ts; Gateway has instanceUrl of orchestrator.ts
--                   and the links of runtime/guacamole.ts and runtime/guacamoleJdbc.ts
--   Proxy           packages/control-plane/src/wildcardProxy.ts (resolveAndAuth, fastIsReady; Cookies has
--                   parseCookie and isLabHost), and routes/internal.ts (forward-auth)
--   Quoting         shQuote of runtime/nodeShell.ts, escapeXmlAttr of runtime/guacamole.ts, csvEscape of
--                   routes/reports.ts; the first two with a reader of the language that they write
--   System          the operations above but for the purge of a batch as a step relation, with
--                   what holds over its runs
--   Reaper, Prewarm packages/control-plane/src/reaper.ts and prewarm.ts, `reconcileOnce` of each
-- Under these, modules named for what they prove: Outcome, Landing, Claims, Contract, Ring, Expiry and so on.
-- Base and Exec are shared: lists, texts and tests; actions on a state that may throw (Exec), their laws
-- (Exec.Laws), guarantees between the states before and after (Exec.Moves) and triples (Exec.Triple). Frame
-- says which operations write which rows. Along carries a guarantee of the single writes to every operation.
-- Tests has a small fleet on which the theorems are applied.
--
-- An asynchronous function is an action of Exec: what was written before a throw stays written. The calls of
-- one action are made in order; other requests do not come in between. What lies outside (the clock, random
-- identifiers, hosts, the Docker and Guacamole services, zod, SHA-1, Unicode tables, the collation of the
-- store) is the parameter Env, whose answers may depend on every call made before, and
-- the libraries of the routes are the parameter Web; signatures have their documented behaviour as a named
-- hypothesis (IsJwt) where a theorem uses it. The store itself is
-- always reachable. Columns and settings that no modelled code reads or writes are left out. Times are
-- milliseconds, and a time before the epoch counts as the epoch.
--
-- The reaper takes 50 rows a rule, as the code does. The polling loop of waitUntilReady runs on fuel, one
-- round a second of the timeout and two more (wait_fuel), which is enough since each round sleeps a second.
--
-- `new Docker(…)` is a recorded call, so that building a client twice differs from taking it from the cache.
-- The preparation of a batch takes its seats one after the other, as with a concurrency of 1.
--
-- Not modelled: the other batch routes, the template, node, tenant and platform routes, the grader, the reports but for the
-- escaping of their export, and the API keys; the upload of the Guacamole mapping, the SQL of its database
-- and the Docker runtime, which are outside calls; the transport of the proxy (headers, sockets), timers,
-- logging, the server, the user interface, and the deployment files.
pub mod Along
pub mod Base
pub mod Exec
pub mod Data
pub mod World
pub mod Web
pub mod Tokens
pub mod Launches
pub mod Batches
pub mod Redeem
pub mod Quoting
pub mod Proxy
pub mod System
pub mod Table
pub mod Store
pub mod Nodes
pub mod Guacamole
pub mod Orchestrator
pub mod Reaper
pub mod Prewarm
pub mod NodeHealth
pub mod Frame
pub mod Tests
