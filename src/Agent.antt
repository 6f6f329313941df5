-- ===== src/Agent.antt =====
-- The agent of the Telegram bot, under agent/: what its tools and its loop share.
pub mod Texts
pub mod Approval
pub mod Disk
pub mod Paths
pub mod Files
pub mod Organize
pub mod Dispatch
pub mod Brain
mod Examples
use ai_agent_ollama.Base.{String, Bool, true, false, List, []}
use ai_agent_ollama.Errors.{Exception, other}

-- The names of the directories from the root on, and the name of the entry.
abbrev pub FilePath : Type 0
FilePath = List String

-- `ToolResult` of agent/tools.py
pub record ToolResult : Type 0 where
  pub text : String
  pub changed : Bool
  pub needs_approval : Bool
  pub artifacts : List FilePath
  pub terminal_text : String

abbrev pub tool_error : String → Exception
tool_error text = other "ToolError" text

abbrev pub os_error : String → Exception
os_error text = other "OSError" text

-- `ToolResult(text, changed=changed)`
abbrev pub result_of : String → Bool → ToolResult
result_of text changed = record {
  text = text;
  changed = changed;
  needs_approval = false;
  artifacts = [];
  terminal_text = "";
}
