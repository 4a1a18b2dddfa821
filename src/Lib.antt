-- ===== src/Lib.antt =====
-- The agentic enterprise service: a FastAPI application around a LangGraph agent, with MCP servers.
--
-- The parts and how they interact. A request is authenticated (app/api/v1/auth.py,
-- app/core/security.py) and handled by a route (app/api/v1/endpoints.py) within one database session
-- (app/database.py). A route runs the agent graph (app/graph/engine.py) on a thread: the router
-- classifies the message by keywords, the retriever fetches past facts of the caller's own threads
-- (app/graph/ownership.py, app/memory/vector_store.py), and one of four workers answers; general
-- answers go round a critic. The research graph (app/graph/research.py) is a loop of its own. The
-- thread routes read and fork checkpoints (app/graph/history.py), which a sweep deletes in the end
-- (app/graph/gc.py). The tools are MCP servers: files behind a path jail (app/mcp/fs_server.py,
-- app/mcp/paths.py), balances (app/mcp/finance_server.py with the token cache app/mcp/oauth.py, over
-- internal_api/finance_api.py), and a sandbox for code (app/tools/code_executor.py).
--
-- Which file models what:
--   Base             texts as lists of code points, results of calls that may raise, dicts, lists
--   Settings         app/core/config.py
--   Database         app/models.py, and get_db of app/database.py as commit or roll back; Columns is what
--                    an INSERT stores of a row, Rows holds proofs on it
--   Ownership        app/graph/ownership.py: claim_or_check, owned_thread_ids; Refinement has the map
--                    from threads to owners that it implements
--   Schemas          app/schemas/agent_schema.py
--   Messages         messages and the chat model, a parameter
--   Memory           app/memory/vector_store.py: ensure_collection, remember, search
--   Graph            app/graph/engine.py: State (GraphState and its reducers), Router, Retriever,
--                    Workers, Critic, Investment, Engine (the nodes and edges of graph_builder), and
--                    Events (what the nodes write to their stream writer, and astream); Tools is
--                    app/graph/tools.py with format_tool_error; Logs, Budget, Streams, Revision,
--                    Dispatch, Traces, Transcript, Runs, Carried, Analysis, ToolCache, ToolErrors
--                    and ToolRounds hold proofs
--   Builds           build_workflow of app/graph/engine.py and build_research_workflow of
--                    app/graph/research.py, as interleavings of coroutines
--   Research         app/graph/research.py; Limits and Rounds hold proofs on its loop
--   History, Gc      app/graph/history.py and app/graph/gc.py
--   Auth             app/core/security.py and app/api/v1/auth.py
--   Mcp              Bearer (app/mcp/auth.py), Client (the MCP client of
--                    app/graph/tools.py), Oauth, FinanceApi, Finance, Paths, Files, and Risk
--                    (app/mcp/risk_server.py, on doubles as exact numbers of steps of 2 ** -1074);
--                    Bank puts Finance, Oauth and FinanceApi together
--   Sandbox          app/tools/code_executor.py
--   Main             app/main.py: Errors (exception handlers and middleware), Startup (lifespan and
--                    the retention task), Smoke, and Health (app/api/v1/health.py);
--                    Tracing, Sweeps and Ignition hold proofs
--   Api              app/api/v1/endpoints.py: Run, Queries, Threads, Recall and Retention are the
--                    routes; Conversations has the threads from one run to the next, with their
--                    replay and their drafts; Owned is the ownership dependency; Rows, Access,
--                    Analyses, Broken, CacheKeys, Claiming and Streams hold proofs
--   Legacy           server.py, the first gateway; Contexts holds its proof
--   Migrations       alembic/versions: Versions (the operations of each), Models (app/models.py as the
--                    tables they are to make), Environment (alembic/env.py, online);
--                    Effects, Checkpoints and Downgrades hold proofs
--   Tests            small instances of the parameters, and one example for each theorem
--
-- How state is modelled. A state is a record that a function takes and returns; a handler is a
-- function from the tables to a result and the tables. What raises returns `err`. Code between two
-- awaits is one step, and a system of coroutines is a step relation with its reachable states.
--
-- Bounds. The executor takes the recursion limit of a run as its number of steps; a general answer
-- needs two steps to its worker, two for each of its three drafts, and one in which LangGraph sees that
-- no node is left, nine in all, and LangGraph's default is 25. The path jail follows a bounded number
-- of symbolic links and ends with an error beyond it, as Python does before 3.13; from 3.13 on
-- Path.resolve leaves a loop of links where it is.
-- The spacing of doubles takes the number it halves as fuel, which is more than its halvings.
--
-- Parameters. LangGraph's executor and saver, the chat model, Qdrant and the embeddings, PyJWT and
-- pwdlib, Podman, Postgres, the file system and the transport of HTTP are arguments, with what the
-- code relies on as named hypotheses: FollowsGraph, AnswersCalls, Appends, Replies, HonoursFilter,
-- DeletesThread, IsSound, TracksContainers, HonoursColumns, HonoursDdl, SparesOthers, KeepsStatus,
-- RemembersWrites, IsServed, StreamsGraph, KeepsThreads, RunsVersions, CollectsTools.
--
-- Not modelled: the writes of requests in the midst of a sweep, which is one step; logging, the offline mode of alembic/env.py, and scripts. The checkpoints inside a run
-- are the saver's: a route takes the saved state of its thread, and Conversations has the state that
-- each run saves in the end.
pub mod Base
pub mod Settings
pub mod Database
pub mod Ownership
pub mod Schemas
pub mod Messages
pub mod Memory
pub mod Graph
pub mod History
pub mod Gc
pub mod Auth
pub mod Mcp
pub mod Sandbox
pub mod Builds
pub mod Research
pub mod Api
pub mod Main
pub mod Legacy
pub mod Migrations
pub mod Tests
