-- ===== src/Esl/Parser.antt =====
-- src/esl/NodeESL/Parser.ts: the framing of the event socket's byte stream.
-- Texts are their UTF-8 bytes, so `toString` and `Buffer.from` are the identity. `JSON.parse` and
-- `_parseXmlBody` (xml2js) are parameters.
mod Framing
mod Lines
pub mod Rounds
pub mod Lengths
pub mod Chunks
pub mod Fields
unfoldable pub use Lines.*
unfoldable pub use Framing.*
