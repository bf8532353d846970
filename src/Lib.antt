-- ===== src/Lib.antt =====
-- mmmcp: a composite MCP server, which merges several component servers into one.
--
-- A configuration (config) names the components. Each is a remote server or a command that is run
-- on demand (component/stdio). Their features are discovered and compiled (catalog) into one
-- snapshot, whose names and URIs carry the components' prefixes (namespace) and are routed back to
-- them. What the server streams to a client is kept in SQL tables (storage), so that a client that
-- reconnects can replay it.
--
-- Base holds what the other modules share: lists on native numbers, texts (lists of code points),
-- maps (association lists), and results, with their monad for early returns.
-- Namespace models namespace/namespace.go, Namespace/Uri namespace/uri.go. `prefix` is Prefix,
-- `named_feature` namedFeature; url.Parse and uritemplate.New are parameters. Prefixes, Names and
-- Uris hold the theorems.
-- Config models config/config.go, Config/Interpolate config/interpolate.go, and Config/Load the
-- conversions of config/load.go; Interpolation and Loading hold the theorems. The loop of
-- `interpolate` runs on the length of the value as fuel, which it never uses up.
-- Stdio/Manager models component/stdio/manager.go: one definition for each section of the code
-- under the mutex. System is the step relation of all interleavings of callers, timers and
-- `Close`.
-- Stdio/Environment models component/stdio/env.go; the host's environment is a parameter.
-- Storage/EventStore models storage/eventstore.go and the pruning of storage/eventstore_sqlite.go,
-- each operation as the body of one transaction on two tables. The pruning loop runs on the number
-- of events, since each round deletes one. Tracks relates the tables to the histories of values
-- that callers appended; Pruning, Bounds, Rows, Histories, Writes, Appends and Replay show what the operations
-- keep of it. The order in which the database finds the rows of a query is a parameter.
-- Storage/Transactions models runTransaction and bind of that file, Options storage/options.go and
-- the errors that are retried, Dsn storage/dsn.go (with Platform and Keys), Adapter
-- storage/event_adapter.go (with Affinity), Stores storage/registry.go and storage/open.go (with
-- Opening). URLs, file paths, digests and the parsers of the drivers are parameters. A transaction
-- makes at most five attempts.
-- Catalog models catalog/catalog.go and catalog/routes.go, Catalog/Compiler the loops of
-- catalog/compiler.go, Components its discovery and `compile`. The discoverer, the hashes and the
-- parsers are parameters. Components are discovered in order, where the code uses several workers.
-- Invariant and Loops are what each loop keeps of the catalog that it builds, Complete what
-- readers rely on, and AllowList the tools that overrides let through.
-- Catalog/Pagination models catalog/pagination.go, with the encoding of cursors as a parameter;
-- its Walk follows the cursors through all pages, on one request more than there are features.
-- Catalog/Registry models catalog/registry.go: one definition for each section of the code under
-- the mutex, Refresh those that refresh and end entries. System is the step relation of all
-- interleavings of callers and timers; Sound is what the sections keep of an entry, Invariant,
-- Steps, Begins, Ends and Closing show that they do, and Progress what callers rely on. Of a timer
-- it is known whether the entry has one: the callback of a timer may run at any time, also late or
-- again. Entries of one fingerprint have configurations that agree on tool search.
-- Search models toolsearch/search.go. The full-text index is a parameter: a search gets the hits
-- that it finds. Ranking, Pages, Names and Paging follow them to the page that is returned. Schema
-- models schemaTerms on decoded JSON, with the depths that are left as fuel, Builder the
-- background builder, on one round more than there are failures, and the arguments of the two
-- tools.
-- Pool models component/pool.go in the same way as the registry, with its System, Places and
-- Ownership.
-- Authorization models component/authorization.go, with its Challenges.
-- Catalog/Calls models catalog/tool_calls.go and the references of catalog/search.go (with
-- Dispatch),
-- Catalog/Rewriting catalog/rewrite.go (with Identities). Http/Dispatch models http_dispatch.go.
-- Requests models request_catalog.go, with its Owners.
-- Http/Activity models http_activity.go, its System every order of requests and session ends.
-- Tests holds runs at concrete inputs.
--
-- Times and sizes are natural numbers, so int64 overflow of a time or a sum of sizes is not
-- modelled, nor is that of the end of a page; the generation of the manager's timers and the index
-- after that of a replay wrap at 64 bits. Keys of the tables are equal as texts: a collation that
-- ignores case is not modelled. Not modelled: notifications
-- and the translation of results, and the rest of the HTTP front end. Command-line handling, SQL
-- drivers, YAML decoding and the MCP SDK are outside the models.
pub mod Base
pub mod Namespace
pub mod Stdio
pub mod Storage
pub mod Config
pub mod Catalog
pub mod Search
pub mod Pool
pub mod Authorization
pub mod Requests
pub mod Tests
pub mod Http
