-- ===== src/Server.antt =====
-- src/exchange_server.cpp: the Exchange Server.
pub mod State
pub mod Output
pub mod Sets
pub mod Names
pub mod Watched
pub mod Holding
pub mod Sound
pub mod Refusing
pub mod Replies
pub mod Sending
pub mod Handlers
pub mod Input
pub mod Accept
pub mod Run
pub mod Settings
pub mod Main
pub mod Admitting
pub mod Trading
pub mod Consuming
pub mod Following
pub mod Cancelling
mod Examples
