-- ===== src/Lib.antt =====
-- Holahost's LLM client, its document service, the checks at their HTTP edge, and the command-line
-- client of both.
--
-- The LLM client (holahost/services/llm-client/backend/app) answers a generation request through one
-- of several paid providers. `GenerateUseCase.execute` validates the command, resolves the model to
-- a chain of candidates, begins the caller's idempotency key, checks context, time and budgets, calls
-- the candidates in turn with a retry each, writes the spend of the call that charged and completes
-- or releases the key. It reaches the outside through ports: the registry, the provider, the budget
-- and usage repositories over one unit of work, the idempotency store, the clocks.
--
-- The document service (holahost/services/rag-documents/backend/app) keeps uploaded documents, cut
-- into chunks with an embedding each, and searches them. Its five use cases create, replace, read,
-- delete and search a document of the caller. The database isolates the owners: each repository call
-- binds the owner to the transaction, and row-level security hides every other owner's rows.
--
-- Two libraries stand before every service: the one of holahost/libs/holahost-auth verifies the
-- caller's token, and the one of holahost/libs/holahost-http limits the size of a body and the rate
-- of each caller before a request reaches a use case.
--
-- The command-line client (holahost/tools/guest-reply) answers a guest's message: it searches a stored
-- document, or one that it uploads for the run and deletes, and generates from what it found. Each call
-- waits out a short rate limit; each class of failure has its own exit code.
--
-- Files and code:
--   Auth               libs/holahost-auth: `authenticate` and the middleware's `call`
--   Base               the numbers, lists, dictionaries and results that the rest shares
--   Guest/Errors       guest_reply/errors.py, with `EXIT_CODES`
--   Guest/World        what a command meets and leaves: requests, waits, output
--   Guest/Caller       guest_reply/clients/http.py: `_call`, `fetch`, `send`, `_error_of`
--   Guest/Clients      guest_reply/clients/documents.py and generation.py
--   Guest/Prompt       guest_reply/prompt/render.py and its templates
--   Guest/Flows        guest_reply/flows.py: `ingest`, `replace`, `ask`, `ask_from_file`, `remove`
--   Guest/Settings     guest_reply/config.py
--   Guest/Cli          guest_reply/cli.py: the commands, `answer`, `fail`
--   Http/RateLimiter   libs/holahost-http/holahost_http/in_memory_rate_limiter.py: `init`, `check`
--   Http/RateLimit     libs/holahost-http/holahost_http/rate_limit.py: `call`, over a limiter
--   Http/BodyLimit     libs/holahost-http/holahost_http/body_limit.py: `call`, over any application
--   Http/RequestId     libs/holahost-http/holahost_http/request_id.py: `call`, up to the echo
--   Llm/Values         domain/value_objects and domain/exceptions.py: a `make_*` per `__post_init__`
--   Llm/Entities       domain/entities: Provider, Model, Budget, UsageRecord
--   Llm/Idempotency    domain/entities/idempotency_record.py and infrastructure/idempotency: `begin`,
--                      `complete`, `release`; `run` is any sequence of such calls
--   Llm/Estimates      application/estimates.py and application/limits.py
--   Llm/Config         config/registry.py, and config/provider_keys.py in Llm/Config/Keys
--   Llm/Registry       infrastructure/registry/config_providers_repo.py: `resolve`, `aliases`, and in
--                      Llm/Registry/Load `load_providers_repo`
--   Llm/Dialects       infrastructure/providers: the dialects' protocol and Anthropic's
--   Llm/Providers      infrastructure/providers/langchain_generation_provider.py
--   Llm/Generate       application/use_cases/generate.py: `execute` and `_generate`
--     Data             the command, result, errors, `_Call`, and the state and result monad
--     Ports            the unit of work (libs/holahost-db/holahost_db/uow.py), the repositories of
--                      infrastructure/db, the store and the clocks
--     Checks           the validation of the command, up to the `_Call`
--     Budgets          `_judge`, `_fits`, `_usable`, `_provider_budget`, `_apply_budget`
--     Calls            `_attempt`, `_backoff`, `_record`, `_call_candidates`, and the retry of
--                      libs/holahost-db/holahost_db/retry.py
--     Quiet, Phases, Settlement, Payment, Keys, Attempts, Deadline, Charges,
--     Retries          proofs
--   Db                 libs/holahost-db: its exceptions and, for the document service, its retry
--   Rag/Values         the document service's domain/value_objects and domain/exceptions.py
--   Rag/Entities       its domain/entities: `Document`, `Chunk`
--   Rag/Storage        its infrastructure/db/schema.py, the policies of its migration, and what each
--                      statement of its repository does to the tables
--   Rag/Data           its commands, views and errors, the world and the environment
--   Rag/Ports          the unit of work, the binding of the owner (holahost_db/rls.py), the repository
--   Rag/Ingestion      its infrastructure/ingestion and infrastructure/embedding
--   Rag/Search         its infrastructure/vector/pgvector_search.py
--   Rag/UseCases       its application/use_cases, one function each; the files below it are proofs
--   Rag/Requests       any sequence of requests
-- where libs is holahost/libs, guest_reply is holahost/tools/guest-reply/guest_reply, and the other paths are below
-- holahost/services/llm-client/backend/app, or holahost/services/rag-documents/backend/app for Rag.
--
-- A method of the use case is a function from a state, the `_Call` and the world, to a result or an
-- error and the next state: what was written before an error stays written. The environment `Env`
-- answers for the code that is not of the program: one clock reading, one draw, one end of a provider
-- call, one fault of the database for each time that it is asked. The rows that other requests commit
-- come in when a unit of work is entered. Times are microseconds, where the program has floats of
-- seconds, and how long an answer takes is an exact fraction; the number of tokens that a refusal
-- advertises is rounded as its doubles are. A temperature and a random draw are millionths. The clock
-- is assumed to be monotonic only where a theorem says so. A pause is recorded, and the readings after
-- it are the environment's.
--
-- In the document service the environment also says what other requests commit before a unit of work
-- and before each statement in it, as at the database's default isolation level; a lock is no part of
-- the model. The constraints and the policies are those of the schema. A commit that fails has
-- committed nothing. Distances and scores are billionths, and rows at one distance come in the order
-- in which they are stored. A theorem says where it is without other requests and faults.
--
-- In the command-line client an answer of a service may depend on every request sent before it. What
-- pydantic makes of a body or of the environment, `httpx.URL`, `uuid.UUID` and Click's reading of the
-- command line are parameters. An interrupt is one of the ways in which a request can end.
--
-- The loops are bounded by the program: a call of the client repeats after three waits at most, an
-- attempt runs `retry_max_attempts` rounds, the retry of a write `default_max_retries` after the first,
-- the candidates are a list. The one fuel beyond these bounds is that of a double's scaling in
-- Llm/Estimates: 1074 and 971 doublings reach the least and the greatest double. Every function is
-- total.
--
-- Not modelled: the HTTP interface and its error bodies, the JWT library, logging, the vendors' SDKs, the
-- services' settings, and the development token minter. A call of the store or of the limiter's
-- counters is one step, since it runs under a lock.
pub mod Auth
pub mod Base
pub mod Db
pub mod Guest
pub mod Http
pub mod Llm
pub mod Rag
