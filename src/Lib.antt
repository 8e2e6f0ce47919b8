-- ===== src/Lib.antt =====
-- eve-build: a FastAPI service in which EVE Online players browse blueprints and plan industry jobs.
--
-- The program is in app/. Its routes (app/routes) read the character's data through the services
-- (app/services), which keep their documents in MongoDB, with Redis as a cache in front of it, and
-- ask CCP's ESI service over HTTP. At startup app/db takes a lock, runs the migrations and syncs the
-- indexes.
--
-- The files and the code they are about:
-- * BuildChain (app/services/build_chain.py, and the reverse lookups of app/services/sde.py): Recipe
--   is `_Recipe` and `_recipe_for_product`; Efficiency is the discounts of a structure and of a
--   blueprint, Efficiency.Errors what is refused; Walk is the loop of `resolve_build_chain`, its local dictionaries a record; Order is
--   `_topological_order`; Aggregate is the two functions that merge the resolutions of a plan;
--   Resolve names, prices and orders the finished walk, and Resolve.Whole is about all of
--   `resolve_build_chain`.
-- * Prices (app/services/market_prices.py): the price list, its refresh in one request, and the queues
--   of the refresh through two workers.
-- * Plan (app/services/plan.py): a plan and its jobs are records, each coroutine is a function of
--   the collection, and Plan.Ops lists the calls that change it; Transfer is the export and the
--   import.
-- * PlanPages (app/routes/plans.py): the requests that change plans, with their guards and answers,
--   over Plan; Safe is about the jobs that requests make, Refused about the requests that fail, and
--   Blueprints adds the two requests that take jobs and structures from the character's blueprints.
-- * Startup (app/db/startup_lock.py, app/migrations/runner.py, app/db/index_sync.py): Lock is one
--   attempt and the release, and a step relation on the clock, the collection and the pods;
--   Migrations is the loop over the migrations, with what each does as a parameter; Indexes is the
--   reading of the index files and `sync_indexes`.
-- * Tokens (app/services/character_tokens.py, app/services/eve_sso.py, app/models/character.py): a
--   call takes the readings of the clock, and the answer of EVE SSO as a parameter.
-- * Cache (app/services/cache.py, app/services/sde.py): a cache-aside read of documents by
--   id; EntryLists (app/services/esi_cache.py) is the lists that belong to a character or corporation.
-- * Locations (app/services/locations.py): Chain is about `resolve_container_chain`; Names is the one
--   shape of `resolve_system_names`, `resolve_planet_names` and `_resolve_system_security_statuses`;
--   Info is `_resolve_location_system_ids` and `resolve_location_info`, over Names.
-- * Auth (app/routes/auth.py, app/services/access_control.py): the session through `login`,
--   `callback`, `connect_corp` and `logout`; Callback and Replay are about `callback`. The tokens,
--   claims and public information that EVE SSO and ESI give are parameters, and the writes are
--   values.
-- * Deps (app/deps.py): `get_current_character_optional`, which uses Auth and Tokens.
-- * Esi (app/services/esi.py): the retries of `_get_with_retry` and the pages of `_get_all_pages`;
--   Entries reads the JSON of a list into entries, Answers that of one object, and Rows is how
--   app/services/esi_cache.py turns entries into rows and back.
-- * CharacterData (app/services/character_data.py): the lists of a character and of its corporation
--   over Cache.EntryLists and Esi, one state for all the collections; Merged and Cleared are about
--   the merged lists and about what is removed.
-- * TrackedInfo (app/services/tracked_info.py): Dispatch is about the jobs that
--   `enqueue_all_refresh_jobs` publishes (Jobs counts them, Delegates is `delegate_by_corp`), Refresh
--   about `run_refresh_job`, which uses Tokens and CharacterData.
-- * Pi (app/routes/pi.py): Scope is about `_get_colonies_or_none`, Products about the products that
--   `list_colonies` shows for a colony.
-- * Planetary (app/routes/planetary.py): `_expand_to_tier`, on the number of calls that the interpreter
--   lets be nested, and the rows of `planet_schematic_detail`.
-- * Prelude has the list, dictionary, result and integer helpers; Prelude.SortedSet is `sorted` of a
--   set of integers, Prelude.Sort `sorted` by a name, Prelude.Text `str` of a number.
-- * External has the code that is not in this repository, as interfaces: Float is Python's float
--   (with Fixed, an instance of it), Mongo, Upsert, Find, Docs and Rows a MongoDB collection (with Memory,
--   an instance of it), Indexes the indexes of a database, Redis the cache, Json the values of
--   `json.loads`. A parameter that answers a call is the answer at that time.
--
-- Numbers: type ids and quantities of the build chain are natural numbers, since the routes only let
-- positive ones in; those of a plan are integers, since a plan can be imported. Floats are the
-- interface FloatArith, whose laws hold of IEEE 754 for finite values; the results on ceilings ask
-- for operands up to 2^53. Exceptions are values of Exc.
--
-- Bounds and fuel: `walk` runs `_MAX_DEPTH` levels, which is the code's own bound.
-- `topological_order` has no bound in the code; its fuel is one more than the number of steps,
-- which Order.Fuel proves to be enough. `resolve_container_chain` has one more than the number of
-- assets, which Locations.Chain proves to be enough; `retry` one more than the limit on attempts,
-- which Esi.Retries proves to be enough. The limit of `expand_to_tier` is the interpreter's, beyond
-- which it raises RecursionError; Planetary.Expansion is about how much is enough.
--
-- Not modelled: the requests of app/routes that are not named above, and the pages; HTML and templates, the HTTP
-- and database drivers, the JSON of the queues, logging and metrics. An operation that reads a plan and
-- writes it back is one step: what another request does between the two is not modelled.
pub mod Prelude
pub mod External
pub mod BuildChain
pub mod Prices
pub mod Plan
pub mod PlanPages
pub mod Startup
pub mod Tokens
pub mod Cache
pub mod Locations
pub mod Esi
pub mod Pi
pub mod Planetary
pub mod Auth
pub mod Deps
pub mod CharacterData
pub mod TrackedInfo
