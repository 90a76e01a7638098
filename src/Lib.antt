-- ===== src/Lib.antt =====
-- Verification of the Morgenblau server (app/internal).
--
-- The server mirrors a reader's records from the reader's PDS into a database, fetches their feeds,
-- makes feeds from web pages, and serves both. The parts and their files:
--
-- - Sync: the reconcile pass (Sync/Collection, of sync/reconcile.go, reconcile_guard.go and WithTx of
--   database/conn.go) brings one collection of a reader's rows in line with a listing of the PDS.
--   Sync/Saves and Sync/Subscriptions (reconcile_saves.go, reconcile_subscriptions.go) are its
--   clients, over Sync/Table and Sync/Catalog, which are the statements of database/queries on one
--   user's rows and on the feeds; Sync/Sidecars (reconcile_sidecar.go) picks among duplicate
--   records and deletes the losers from the PDS.
--   Sync/Engine (syncuser.go) coalesces triggers into one run per reader and ends in the job tracker.
--   Sync/FeedPipeline (feedpipeline.go) fetches one feed and stores its items: FeedPipeline.antt has
--   the choices for an item, Store and Fetch the writes and FetchAndStore. Subscriptions/Passes has
--   the passes, Subscriptions.antt the rows.
-- - Jobs (jobs/jobs.go): the in-memory tracker that the engine reports to. A *Job is an index into a
--   heap, so that the three maps alias one object. Jobs/Reads has the lookups by user.
-- - Backoff (backoff/backoff.go), Cooldown (atxrpc/cooldown.go): retry ladders and the deadlines that
--   an upstream asks for; the feed pipeline uses the first, the XRPC client the second.
-- - RateLimit (middleware/ratelimit/ratelimit.go), CommitGate (api/commit_gate.go): what a client may
--   ask of the server, and what a request may write to the PDS.
-- - Webfeed (webfeed/template.go, repair.go): the URL shapes of a page's streams, and the ladder that
--   re-finds a list on a page that changed: Repair.antt has its rules, Repair/Ladder the steps.
-- - Websource (websource/service.go, feed.go, types.go): the server's own feeds of pages without one.
--   Items is the gate and what a poll publishes, Store the tables and statements, Poll one poll
--   (State what it reads, Write what it writes), Keys which source a listing finds, Setup the storing
--   of a finished setup, Anchor the vetting of a reader's post, FeedUrl the feeds' addresses. Its
--   generator, which webfeed implements, is the answer that Poll is given.
-- - Newsletter (newsletter/service.go): a reader's requests on newsletters; Newsletter.antt has those
--   on sources, Requests those on messages and saves.
-- - Common: shared names. Strings are the native ones, maps are association lists (Common/Dict), and
--   what holds for every order of a map's range loop is proved for every list. Examples has the
--   theorems at concrete inputs.
--
-- Each Go function is the definition of its name in snake case; a helper that Go writes inline stands
-- before it. A method takes its receiver's state and returns the new one. Instants are nanoseconds
-- since Go's zero time, as native numbers, and durations integers with the wrap of int64 where Go
-- multiplies (Common/Clock). Errors are values. Goroutines that share state are sequences of the
-- sections that they run under the lock. A template of webfeed is its host and segments.
--
-- The only loop that is not structural is that of Exponential, on fuel: the maximum less the base,
-- and one, is enough. Logging is left out, and so are contexts, except where the code branches on
-- one. Code of other modules and of the parts that are not modelled enters as arguments: net/url, time
-- and string functions, the database's answers, DeleteRecord of the PDS, feedfinder and favicon, page
-- analysis, the setup of a web feed.
-- Not modelled: the rest of webfeed, the front door of websource (claims,
-- caps, limiter) and its rendering, newsletter addresses and ingest, the standard pipeline, the
-- listing client, sessions and OAuth, the profile cache, and the HTTP handlers, which are other
-- subsystems or glue; generated code; the frontend.
pub mod Common
pub mod Backoff
pub mod Cooldown
pub mod RateLimit
pub mod CommitGate
pub mod Jobs
pub mod Sync
pub mod Webfeed
pub mod Websource
pub mod Newsletter
mod Examples
