-- ===== src/Pbx.antt =====
-- src/esl/free-switch-pbx.service.ts: the commands that are sent to the switch. Replies reads what the
-- switch answers, Read is the state of reading keys from a caller, and Digits asks for keys again until
-- they fit.
pub mod Replies
pub mod Read
pub mod Digits
