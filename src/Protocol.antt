-- ===== src/Protocol.antt =====
-- src/protocol/message_parser.hpp and message_parser.cpp: the text protocol.
pub mod Words
pub mod Integer
pub mod Command
pub mod Parse
pub mod Response
mod Examples
