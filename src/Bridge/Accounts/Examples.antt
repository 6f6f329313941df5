-- ===== src/Bridge/Accounts/Examples.antt =====
-- Two accounts, one of which is switched to and then removed.
use ai_agent_ollama.Base.{String, ◌≡◌, refl, true, false, none, some, [], ◌∷◌, map, str_eq, ok, err}
use ai_agent_ollama.Errors.{other}
use ai_agent_ollama.Bridge.Accounts.{
  Account, TelegramSettings, Accounts, first_named, with_enabled, Outside, switched, switch_account,
}
use ai_agent_ollama.Bridge.Accounts.Changes.{switch_account_lem}

abbrev main : Account
main = record {
  name = "main";
  enabled = true;
  api_id = 1;
  api_hash = "h";
  phone = "+1";
  session_name = "assistant";
  confirm_send = true;
}

abbrev work : Account
work = record main { name = "work"; enabled = false; session_name = "work" }

abbrev both : TelegramSettings
both = record { enabled = true; active_account = "main"; accounts = main ∷ work ∷ [] }

abbrev start : Accounts
start = record {
  telegram = both;
  clients = [];
  active_client = none;
  sessions = "work" ∷ [];
  written = none;
  writable = true;
}

-- the session file cannot be deleted
abbrev locked : Outside
locked = record { disconnect = λ c. ok tt; unlink = λ f. err (other "OSError" "Access is denied") }

abbrev switched_to : Accounts
switched_to = switched "work" (map (with_enabled "work" true) both.accounts) start

switch_account_lem_example :
    (switch_account "work" start ≡ ok switched_to)
    × (switched_to.telegram.active_account ≡ "work")
    × ((a : Account) × (first_named "work" switched_to.telegram.accounts ≡ some a)
        × (a.enabled ≡ true))
    × ((other : String)
        → str_eq other "work" ≡ false
        → first_named other switched_to.telegram.accounts ≡ first_named other both.accounts)
switch_account_lem_example = switch_account_lem "work" start refl
