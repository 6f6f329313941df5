-- ===== src/Bridge/Chat.antt =====
-- The chat runs of local_agent/bridge/api/handlers.py.
pub mod Model
pub mod Tools
pub mod Loop
pub mod Quiet
pub mod Ends
pub mod Worker
pub mod Window
pub mod Unknown
pub mod Answers
mod Examples
