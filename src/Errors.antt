-- ===== src/Errors.antt =====
-- local_agent/core/errors.py and the builtin exceptions that the program raises or handles.
use ai_agent_ollama.Base.{String, Bool, true, false, str_eq}

-- The first four are `AssistantError` and its subclasses. `other` carries the class and the text
-- of any other exception.
pub data Exception : Type 0 where
  assistant config refused : String → Exception
  dependency_missing : (message install_hint : String) → Exception
  type_error value_error not_implemented : String → Exception
  other : (class message : String) → Exception

-- `isinstance(exc, AssistantError)`
abbrev pub is_assistant : Exception → Bool
is_assistant (assistant m) = true
is_assistant (config m) = true
is_assistant (refused m) = true
is_assistant (dependency_missing m hint) = true
is_assistant _ = false

-- `str(exc)`
abbrev pub message : Exception → String
message (assistant m) = m
message (config m) = m
message (refused m) = m
message (dependency_missing m hint) = m
message (type_error m) = m
message (value_error m) = m
message (not_implemented m) = m
message (other c m) = m

-- `isinstance(exc, OSError)`
abbrev pub is_os_error : Exception → Bool
is_os_error (other class text) = str_eq class "OSError"
is_os_error _ = false
