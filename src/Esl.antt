-- ===== src/Esl.antt =====
-- The event-socket library: src/esl/NodeESL.
pub mod Value
pub mod Uri
pub mod Event
pub mod Parser
pub mod Connection
