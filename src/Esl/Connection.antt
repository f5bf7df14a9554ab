-- ===== src/Esl/Connection.antt =====
-- src/esl/NodeESL/Connection.ts: commands, the queues of callbacks that wait for replies, and the
-- routing of events. The timers are not modelled.
mod State
mod Commands
mod Receive
pub mod Wire
pub mod Show
pub mod Executions
pub mod Fifo
pub mod Replies
unfoldable pub use State.*
unfoldable pub use Commands.*
unfoldable pub use Receive.*
