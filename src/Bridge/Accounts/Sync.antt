-- ===== src/Bridge/Accounts/Sync.antt =====
-- That the clients are those of the enabled accounts after any change of the settings.
use ai_agent_ollama.Base.{String, Bool, ◌&&◌, str_eq, if◌then◌else◌}
use ai_agent_ollama.Base.Dict.{Dict, insert, contains}
use ai_agent_ollama.Bridge.Accounts.{
  Account, TelegramSettings, Client, Accounts, account, has_credentials, new_client,
}

-- the clients once one wanted account was looked at
abbrev after_one : String → Account → TelegramSettings → Dict Client → Dict Client
after_one name a tg clients =
    if contains name clients
    then clients
    else if has_credentials a
    then insert name (new_client a (account name tg).session_name) clients
    else clients

-- an account that has this name and is enabled
abbrev pub is_enabled : String → Account → Bool
is_enabled name a = a.enabled && str_eq a.name name
