-- ===== src/Runtimes.antt =====
-- Trading engines and their manager: backend/app/core/trading_engine.py, backend/app/core/runtime.py and
-- the registry of strategies, backend/app/strategies/registry.py.
pub mod Strategy
pub mod Registry
pub mod Engine
pub mod Manager
pub mod Calls
pub mod Keys
pub mod Lives
pub mod Answers
pub mod Signals
pub mod Owned
pub mod Traces
mod Examples
