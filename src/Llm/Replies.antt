-- ===== src/Llm/Replies.antt =====
-- The replies of local_agent/llm/client.py: what is read out of a response, and how the pieces of a
-- stream are put together.
pub mod Calls
pub mod Stream
pub mod Fragments
pub mod RoundTrip
