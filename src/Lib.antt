-- ===== src/Lib.antt =====
-- Klew desktop: a model of the logic of the React frontend, cmd/klew-desktop/frontend/src.
--
-- The frontend shows the state of a Kubernetes cluster. Its views (components/, views/) render what
-- the hooks (hooks/) and the plain functions (lib/) compute; these are what is modelled. A hook's
-- refs and state are the fields of a record, and each callback is a function that returns the new
-- record with its result. `null` and `undefined` are `none`, a string is its list of UTF-16 code
-- units (`Str`), a `Map` with string keys its entries in insertion order (`Dict`), and a `Set` a
-- list without repetitions. `Date.now()` is an argument. A promise is a number, and the settling of
-- a promise is an operation, so that an interleaving is a list of operations.
--
-- Base holds what the parts share: tests, lists, text, maps and sets.
-- History models hooks/useNavigationHistory.js (`push`, `back`, `forward` over `Nav`).
-- Cache models lib/catalogCache.js: Cache/Lru the bounded map, Cache/Catalog the requests over it.
-- Cache/Manifest models lib/manifestCache.js and Cache/Changes lib/changesCache.js, with
-- its two fetches in Cache/Changes/Fetches.
-- Access models lib/rbacAccess.js, and Entities hooks/useCatalogEntities.js over the cache: the hook
-- with its effects in Entities, answers and the stream of the watch in Entities/Requests, and the
-- renders in Entities/Renders, where a render and its effects are two events. A call of
-- `reload` behind its `await` is an entry of a list; the entities of the backend have a type of their
-- own, and `catalogEntityToRow` is a parameter.
-- Scope models lib/browseScope.js, and Favorites lib/clusterContexts.js.
-- Browse models lib/resourceNavigation.js over a tree of categories that is given.
-- Findings models lib/findingRanking.js, with `localeCompare` as a parameter.
-- Idle models hooks/useIdleAutoStop.js, whose interval is an event that may come at any time.
-- Logs models lib/drain.js: `add` of `createDrain` over the tree of Logs/Tree, and
-- `mergeSimilarClusters` in Logs/Merge. A cluster is shared between the list and the tree, which hold
-- its place in the list; a similarity is the number of equal tokens, and a threshold a fraction.
-- Panels models the console dock: Panels/Terminal hooks/useTerminalPanel.js, Panels/Stream
-- hooks/useStreamPanel.js, and Panels/Dock hooks/useConsoleDock.js, which holds the other two.
-- A window is the two floors that the hooks compute from its height and their ratios, each event
-- coming with its own; a drag of the pointer is how far it went up or down.
-- Connection models lib/clusterConnection.js: Connection/Errors `classifyConnectionError`,
-- Connection the helpers, and Connection/State `deriveConnectionState`. Connection/Retry
-- models hooks/useClusterConnection.js, with a render and its effects as one event.
-- Tabs models hooks/useTerminalTabs.js, and Tabs/Split lib/terminalSplit.js.
-- Shell models the rail modes of lib/shellLayout.js.
-- Inspect models the inspect keys of lib/matches.js (`buildInspectKey`, `parseInspectKey`,
-- `rowKeysMatch`), and Overview the relationship path of lib/investigationOverview.js: Overview the
-- walk up the graph (`walkOwnershipPath`), Overview/Path the search (`buildRelationshipPath`).
-- Matches models the rows of the matches of lib/matches.js: the pods and their health in Matches,
-- `deriveMatchRows` in Matches/Rows, the worst row in Matches/Worst, `scopeStatus` in Matches/Scope, the
-- groups in Matches/Groups, and the keys that are selected at first in Matches/Selected.
--
-- The one loop that has fuel is the walk of Overview: it has one round more than there are parents,
-- which is enough since it visits no id twice. Every other loop runs over a list. Not modelled:
-- rendering, the Wails bindings and the Go backend, which the frontend only calls.
pub mod Access
pub mod Base
pub mod Browse
pub mod Cache
pub mod Connection
pub mod Entities
pub mod Logs
pub mod Favorites
pub mod Findings
pub mod History
pub mod Idle
pub mod Inspect
pub mod Overview
pub mod Matches
pub mod Panels
pub mod Scope
pub mod Shell
pub mod Tabs
