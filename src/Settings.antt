-- ===== src/Settings.antt =====
-- app/core/config.py: the settings that the modelled code reads.
use agentic_enterprise.Base.{ℕ, [], Text, codes}
use agentic_enterprise.Schemas.{ℤ, pos}

pub record Settings : Type 0 where
  pub checkpoint_retention_days : ℕ
  pub checkpoint_gc_interval_hours : ℤ
  pub jwt_expire_minutes : ℕ
  pub demo_username : Text
  pub demo_password : Text
  pub demo2_username : Text
  pub demo2_password : Text
  pub mcp_auth_token : Text
  pub agent_files_max_write_bytes : ℕ
  pub app_env : Text
  pub finance_oauth_client_secret : Text

-- `Settings()` with nothing set in the environment.
abbrev pub defaults : Settings
defaults = record {
  checkpoint_retention_days = 30;
  checkpoint_gc_interval_hours = pos 6;
  jwt_expire_minutes = 30;
  demo_username = codes "admin";
  demo_password = [];
  demo2_username = codes "someone-else";
  demo2_password = [];
  mcp_auth_token = codes "dev-only-change-me";
  agent_files_max_write_bytes = 1_048_576;
  app_env = codes "dev";
  finance_oauth_client_secret = codes "dev-only-change-me";
}
