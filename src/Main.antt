-- ===== src/Main.antt =====
-- app/main.py: how the application starts, and what becomes of a request's failure.
pub mod Errors
pub mod Startup
pub mod Smoke
pub mod Health
pub mod Tracing
pub mod Sweeps
pub mod Ignition
