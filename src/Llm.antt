-- ===== src/Llm.antt =====
-- local_agent/llm/client.py: the clients of the model. Its parts are the modules below.
pub mod Http
pub mod Replies
mod Examples
