-- ===== src/Lib.antt =====
-- Project Loom, the memory engine (loom-engine/src): an evidence-grounded memory for AI workflows.
-- Episodes are stored in PostgreSQL; a background worker claims each one, embeds it and extracts
-- entities and facts from it (the offline pipeline); a query is classified, candidates are
-- retrieved by profile, weighted, ranked, and compiled into a package (the online pipeline).
--
-- A table is a list of rows, a statement a function from tables to a result and a table, and the
-- time of a statement is an argument. Uuids are numbers. Common has what the parts share;
-- Common.Table has the SQL forms (UPDATE ... WHERE, its count, lookups by key).
--
-- Episode: the rows of loom_episodes (types/episode.rs), the queries of db/episodes.rs in
--   Episode.Lifecycle, and the worker's turn on an episode (worker/processor.rs with the statements
--   of pipeline/offline/extract.rs and state.rs on the episode) in Episode.Worker. What the
--   embedding and the extraction answer is an argument. Episode.Exclusive has the interleavings of
--   several workers as a step relation.
-- Fact: facts and summaries (types/fact.rs, db/facts.rs, db/entities.rs) and supersession
--   (pipeline/offline/supersede.rs).
-- Resolve: entities (types/entity.rs, db/entities.rs) and their resolution in three passes
--   (pipeline/offline/resolve.rs): Queries and Updates have the statements, with the constraints of
--   migrations/002_entities.sql, Passes the passes, Run the orchestration. The functions of the
--   host (case, collation, vector distance) are a record, Resolve.Host.
-- Llm: the client of the language models (llm/client.rs): Post has one request with its retries,
--   Client the calls with the fallback; and the classification of a query (llm/classification.rs,
--   pipeline/online/classify.rs), in Classify.
-- Extract: namespaces (pipeline/online/namespace.rs) and the loop that inserts the facts of an
--   episode (pipeline/offline/extract.rs, db/facts.rs).
-- Predicate: the registry of predicates and its candidates (db/predicates.rs), their tracking and the
--   block of the prompt (pipeline/offline/extract.rs).
-- Telemetry: the shared state and its rings (telemetry/state.rs) and the sampler
--   (telemetry/sampler.rs), over the tables of episodes and of the audit log.
-- Api: the bearer token (api/auth.rs) and the dispatcher of JSON-RPC calls (api/mcp_rpc.rs), over
--   an interface for the handlers of the three tools.
-- Ingest: the ingestion of an episode (pipeline/offline/ingest.rs, types/ingestion.rs, and
--   insert_episode of db/episodes.rs): Input has the checks, Insert the searches and the INSERT,
--   with the unique index and the check of the migrations 015 and 017.
-- Tier: the hot and warm tiers (pipeline/offline/state.rs): Moves has the statements that promote,
--   demote, pin and archive rows, Budget the enforcement of the token budget of a namespace.
-- Online: the pipeline of a query (pipeline/online). Profiles and Retrieve have the profiles and
--   their collection (retrieve.rs), Weight the weights (weight.rs), Scores and Rank the ranking
--   (rank.rs), Compile the selection of the package (compile.rs). The scores are f64 in the
--   program: here they are an interface, Online.Float, with the laws that the results use;
--   Online.Fixed is an instance by fixed-point numbers, on which the tests run.
--
-- The loops of the source are recursions on the lists that they walk, or on a number that they
-- count down. The one open loop, the enforcement of the hot tier's budget, is on fuel: one
-- round more than there are rows that may be demoted is enough.
-- Not modelled: the texts of the package, consolidation, and the routes of HTTP;
-- the clients in other languages.
pub mod Common
pub mod Episode
pub mod Fact
pub mod Online
pub mod Tier
pub mod Ingest
pub mod Predicate
pub mod Resolve
pub mod Extract
pub mod Llm
pub mod Telemetry
pub mod Api
