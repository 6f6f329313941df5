-- ===== src/Bridge.antt =====
-- local_agent/bridge: the event bus, the sessions, the invocation of actions, confirmations and
-- chat runs of the handlers.
pub mod EventBus
pub mod Sessions
pub mod Artifacts
pub mod Accounts
pub mod Invoke
pub mod Chat
