-- ===== src/Graph.antt =====
-- app/graph/engine.py: the agent graph, its state, its nodes and its edges.
pub mod State
pub mod Logs
pub mod Router
pub mod Retriever
pub mod Budget
pub mod Workers
pub mod Critic
pub mod Investment
pub mod Engine
pub mod Events
pub mod Streams
pub mod Traces
pub mod Transcript
pub mod Revision
pub mod Dispatch
pub mod Runs
pub mod Carried
pub mod Analysis
pub mod Tools
pub mod ToolCache
pub mod ToolErrors
pub mod ToolRounds
