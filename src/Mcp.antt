-- ===== src/Mcp.antt =====
-- app/mcp: the MCP servers' own logic, and internal_api/finance_api.py, which one of them calls.
pub mod Bearer
pub mod Client
pub mod Oauth
pub mod FinanceApi
pub mod Finance
pub mod Bank
pub mod Risk
pub mod Paths
pub mod Files
