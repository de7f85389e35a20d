-- ===== src/Skill/Agent.antt =====
-- realtime-agent.js: an agent that follows the signals of the API's socket and places an order for
-- each that passes its filters.
pub mod Values
pub mod Config
pub mod Signals
pub mod Runtime
pub mod Steps
pub mod Snapshot
mod Tests
