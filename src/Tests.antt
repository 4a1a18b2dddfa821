-- ===== src/Tests.antt =====
-- Examples: each applies a theorem at a concrete input.
mod Parts
mod Runs
mod Tenants
mod Branches
mod Postgres
mod Servers
mod Tokens
mod Builds
mod ResearchBuilds
mod Routes
mod ResearchRuns
mod Main
mod Schemas
mod Tools
mod Risk
mod Bank
mod Conversations
mod Streams
mod Replays
mod Upgrades
mod Clients
mod Drafts
