-- ===== src/Builds.antt =====
-- The caches that are filled by an awaited load: `build_workflow` of app/graph/engine.py under its
-- lock, and `build_research_workflow` of app/graph/research.py without one.
pub mod Workflow
pub mod ResearchApp
