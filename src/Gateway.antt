-- ===== src/Gateway.antt =====
-- The gateway to the language models (mas/runtime/provider_gateway.py, mas/runtime/cache.py, the
-- circuit breaker of mas/llm_client.py).
pub mod Types
pub mod Errors
pub mod Breaker
pub mod Cache
pub mod Attempt
pub mod Progress
pub mod Calls
pub mod Account
pub mod Messages
pub mod Endings
pub mod Bounds
pub mod Failures
pub mod Routing
pub mod Candidates
pub mod Selection
pub mod Serve
pub mod Chosen
pub mod Served
pub mod Recall
pub mod Headline
pub mod Reports
pub mod Retries
mod Examples
