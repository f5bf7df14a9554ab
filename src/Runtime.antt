-- ===== src/Runtime.antt =====
-- src/esl/runtime-data.service.ts: what the program remembers of each call, by connection id.
pub mod State
pub mod Calls
pub mod Laws
