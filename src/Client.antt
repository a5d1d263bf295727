-- ===== src/Client.antt =====
-- The two clients: src/client_shell.cpp, src/trader_client.cpp and src/market_data_client.cpp.
mod Examples
pub mod Shell
pub mod Programs
