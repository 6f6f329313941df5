-- ===== src/Lib.antt =====
-- A verification of the core of the AI agent for Ollama: what a front end asks of the bridge, how a
-- chat run goes, which actions the model may run, and what is kept on disk.
--
-- A front end calls the handlers of the bridge. A message starts a chat run in a thread of its own; the
-- run sends the conversation to the client of the model, publishes what comes back on the event bus,
-- and runs the tools that the model calls through the registry of actions, whose confirmation gate is
-- answered by the front ends. The conversation is a runtime with its history file; the scheduler fires
-- reminders and actions from its own file.
--
-- - Base: lists, dicts, texts, tests and fallible functions that every module shares.
-- - Values, Errors: the JSON values of arguments and settings, `_coerce_value`, and the exceptions of
--   local_agent/core/errors.py.
-- - Actions: local_agent/actions/registry.py. ConfirmationGate is Gate with ask, auto_approve,
--   auto_deny, reset and set_callback; ActionRegistry is a dict with register, decorator and get;
--   run_action is prepare, confirm and perform. An action's function is any function of its arguments
--   and its context that may raise.
-- - Runtime: local_agent/core/context.py. RuntimeContext is Runtime; append, clear, compact,
--   replace_last_assistant and the reading of the history file are functions to the new state.
-- - Bridge.EventBus: EventBus of local_agent/bridge/api/handlers.py; Bridge.Sessions: _runtime_for and
--   _close_stale_sessions; Bridge.Artifacts: _collect_artifacts; Bridge.Invoke: _invoke_action_sync,
--   _invoke_with_bridge_confirmation and resolve_confirmation; Bridge.Chat: _build_messages,
--   _friendly_llm_error, _chat_loop (Tools and Loop), _chat_worker, _start_chat_run and _interrupt_run.
-- - Bridge.Accounts: the Telegram accounts in the settings, in the same file.
-- - Llm: local_agent/llm/client.py. Http has the requests and the loops over the attempts of both
--   clients, Replies the tool calls, the texts and the streams that are read.
-- - Scheduler: local_agent/core/scheduler.py: Time has parse_at, Jobs the jobs and their file, Firing
--   _tick and what it announces.
-- - Storage: agent/storage.py, the tables that the agent of the Telegram bot keeps; Approvals has
--   put_pending and pop_pending.
-- - Agent: agent/tools.py and agent/brain.py. Texts has normalize_tool_args, Approval
--   requires_approval and the guards of run_command, Paths _path and _assert_not_sensitive, Files and
--   Organize the tools that write, Dispatch run_command and invoke, and Brain the loop of run. Disk is the
--   file system under them: an entry for each path, and no links.
-- - Updater: local_agent/desktop/updater.py. Updater has the versions and is_newer, Check the releases and
--   check over its state file.
-- - FileActions: the actions of local_agent/actions/file_ops.py that change a file or folder, on the same
--   file system.
-- - Cleanup: local_agent/core/cleanup.py over the file system of Agent. Cleanup has _remove_tree and
--   clean_repo_caches, Purge the steps of purge_all and purge_with_confirmation, and disable of
--   local_agent/desktop/autostart.py.
--
-- Loops over lists are structural. The loops over attempts and turns have as many rounds to go as the
-- source's `range` gives them. `evict` of Bridge.Sessions runs on fuel, the number of sessions, since
-- each round drops one. Numbers are natural numbers; times are whole seconds.
--
-- Messages that the source has in Persian are given in English. Threads are explicit: what other
-- threads do while a run waits for an answer is a list of calls, and a stop event is set from some test
-- of it on. Floats are kept by their text, and an object of a class of Python by what `str` gives for
-- it. What is kept are JSON values, so `json.dumps` does not raise on them. Regular expressions, the
-- file system, JSON, HTTP, clocks and identifiers are arguments. Front
-- ends, the other actions behind the registry, Telegram, Gmail, the tools of agent/tools.py that only
-- read, and the bots of agent/ are not modelled.

pub mod Base
pub mod Values
pub mod Errors
pub mod Actions
pub mod Runtime
pub mod Bridge
pub mod Scheduler
pub mod Llm
pub mod Storage
pub mod Agent
pub mod Updater
pub mod Cleanup
pub mod FileActions
