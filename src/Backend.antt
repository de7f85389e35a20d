-- ===== src/Backend.antt =====
-- easyclaw-frontend/src/app/lib/backend.ts, the client of the HTTP and WebSocket interfaces.
pub mod Json
pub mod Uri
pub mod Session
pub mod Request
pub mod Endpoints
pub mod Socket
mod Tests
