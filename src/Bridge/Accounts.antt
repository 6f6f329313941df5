-- ===== src/Bridge/Accounts.antt =====
-- The Telegram accounts of the settings: `TelegramSettings` of local_agent/core/config.py and the
-- calls of local_agent/bridge/api/handlers.py that change them and keep the clients in step. The
-- default name is `main` in English. The status that each call returns is left out.
pub mod Sync
pub mod Changes
mod Examples
use ai_agent_ollama.Base.{
  ℕ, zero, String, Bool, true, false, not, ◌||◌, ◌&&◌, Option, none, some, is_some, or_else, List,
  [], ◌∷◌, ◌++◌, map, any, keep, str_eq, ◌==◌, if◌then◌else◌, text_or, Result, ok, err, ◌>>=◌,
  concat,
}
use ai_agent_ollama.Base.Dict.{Dict, lookup, insert, erase, contains}
use ai_agent_ollama.Errors.{Exception, assistant}

-- `TelegramAccount`
pub record Account : Type 0 where
  pub name : String
  pub enabled : Bool
  pub api_id : ℕ
  pub api_hash : String
  pub phone : String
  pub session_name : String
  pub confirm_send : Bool

-- `TelegramSettings`
pub record TelegramSettings : Type 0 where
  pub enabled : Bool
  pub active_account : String
  pub accounts : List Account

-- `PersonalTelegram`, as far as the handlers make one
pub record Client : Type 0 where
  pub account_name : String
  pub session_name : String
  pub is_connected : Bool

-- `telegram` are the settings, `written` those that were last written to the configuration file, which
-- `writable` says can be written, and
-- `sessions` the names of the session files that are there. `active_client` is `self.telegram`.
pub record Accounts : Type 0 where
  pub telegram : TelegramSettings
  pub clients : Dict Client
  pub active_client : Option Client
  pub sessions : List String
  pub written : Option TelegramSettings
  pub writable : Bool

abbrev pub default_name : String
default_name = "main"

abbrev pub has_name : String → Account → Bool
has_name name a = str_eq a.name name

-- `any(a.name == name for a in tg.accounts)`
abbrev pub is_known : String → TelegramSettings → Bool
is_known name tg = any (has_name name) tg.accounts

unfoldable pub first_named : String → List Account → Option Account
first_named name [] = none
first_named name (a ∷ rest) = if str_eq a.name name then some a else first_named name rest

abbrev pub placeholder : String → Account
placeholder name = record {
  name = name;
  enabled = false;
  api_id = 0;
  api_hash = "";
  phone = "";
  session_name = "assistant";
  confirm_send = true;
}

-- `TelegramSettings.account`
unfoldable pub account : String → TelegramSettings → Account
unfolding first_named
account name tg =
    let wanted = text_or (text_or name tg.active_account) default_name in
    or_else (first_named wanted tg.accounts) (placeholder wanted)

abbrev pub has_credentials : Account → Bool
has_credentials a = not (a.api_id == 0) && not (str_eq a.api_hash "") && not (str_eq a.phone "")

abbrev pub new_client : Account → String → Client
new_client a session_name = record {
  account_name = a.name;
  session_name = session_name;
  is_connected = false;
}

-- `desired` of `_sync_telegram_accounts`
unfoldable pub desired_from : List Account → Dict Account → Dict Account
desired_from [] found = found
desired_from (a ∷ rest) found =
    desired_from rest (if a.enabled then insert a.name a found else found)

unfoldable pub desired : TelegramSettings → Dict Account
unfolding desired_from
desired tg = if tg.enabled then desired_from tg.accounts [] else []

-- the clients that stay
unfoldable pub kept_clients : Dict Account → Dict Client → Dict Client
kept_clients wanted clients = keep (λ entry. contains entry.0 wanted) clients

-- the clients that are made
unfoldable pub add_clients : Dict Account → TelegramSettings → Dict Client → Dict Client
unfolding account
add_clients [] tg clients = clients
add_clients ((name, a) ∷ rest) tg clients = add_clients rest tg (
    if contains name clients
    then clients
    else if has_credentials a
    then insert name (new_client a (account name tg).session_name) clients
    else clients)

-- `_sync_telegram_accounts`
unfoldable pub sync_telegram_accounts : Accounts → Accounts
unfolding desired kept_clients add_clients
sync_telegram_accounts s =
    let wanted = desired s.telegram in
    let clients = add_clients wanted s.telegram (kept_clients wanted s.clients) in
    record s { clients = clients; active_client = lookup s.telegram.active_account clients }

-- `_persist_settings`: what cannot be written is only logged
unfoldable pub persist_settings : Accounts → Accounts
persist_settings s = record s { written = if s.writable then some s.telegram else s.written }

-- `_apply_settings`, as far as it touches the accounts
unfoldable pub apply_settings : TelegramSettings → Accounts → Accounts
unfolding sync_telegram_accounts persist_settings
apply_settings tg s = sync_telegram_accounts (persist_settings (record s { telegram = tg }))

abbrev no_account : String → Exception
no_account name = assistant (concat ("there is no Telegram account " ∷ name ∷ []))

-- `replace(a, enabled=value) if a.name == name else a`
abbrev pub with_enabled : String → Bool → Account → Account
with_enabled name value a = if str_eq a.name name then record a { enabled = value } else a

unfoldable pub set_account_enabled : String → Bool → Accounts → Result Exception Accounts
unfolding apply_settings
set_account_enabled name value s =
    if is_known name s.telegram
    then ok (
        apply_settings
          (record s.telegram { accounts = map (with_enabled name value) s.telegram.accounts }) s)
    else err (no_account name)

-- `_mark_account_enabled`
unfoldable pub mark_account_enabled : String → Accounts → Accounts
unfolding apply_settings account
mark_account_enabled name s =
    let changed = map (with_enabled name true) s.telegram.accounts in
    let accounts =
      if any (has_name name) changed
      then changed
      else changed ++ record (account name s.telegram) { enabled = true } ∷ [] in
    apply_settings (record s.telegram { enabled = true; accounts = accounts }) s

unfoldable pub add_account : String → String → String → Accounts → Result Exception Accounts
unfolding apply_settings account
add_account name phone session_name s =
    let base = account (text_or s.telegram.active_account default_name) s.telegram in
    let new : Account = record {
      name = name;
      enabled = false;
      api_id = base.api_id;
      api_hash = base.api_hash;
      phone = phone;
      session_name = text_or session_name name;
      confirm_send = true;
    } in
    if is_known name s.telegram
    then err (assistant (concat ("there is a Telegram account " ∷ name ∷ " already" ∷ [])))
    else ok (apply_settings (record s.telegram { accounts = s.telegram.accounts ++ new ∷ [] }) s)

-- the name of the first account, or the default
abbrev pub first_name : List Account → String
first_name [] = default_name
first_name (a ∷ rest) = a.name

-- the accounts that are left, and what is active then
abbrev pub left_after : String → TelegramSettings → TelegramSettings
left_after name tg =
    let left = keep (λ a. not (has_name name a)) tg.accounts in
    record tg {
      active_account = if str_eq tg.active_account name then first_name left else tg.active_account;
      accounts = left;
    }

-- the client is dropped and the session file deleted first
abbrev pub removed : String → Accounts → Accounts
removed name s =
    let session = (account name s.telegram).session_name in
    apply_settings (left_after name s.telegram) (record s {
      clients = erase name s.clients;
      sessions = keep (λ f. not (str_eq f session)) s.sessions;
    })

-- `client.disconnect()`, and `session.unlink()` of a session file that is there
pub record Outside : Type 0 where
  pub disconnect : Client → Result Exception Unit
  pub unlink : String → Result Exception Unit

abbrev pub disconnected : Outside → Option Client → Result Exception Unit
disconnected outside none = ok tt
disconnected outside (some client) = outside.disconnect client

-- the calls of a removal that may raise
unfoldable pub departed : Outside → String → Accounts → Result Exception Unit
unfolding account
departed outside name s =
    let session = (account name s.telegram).session_name in
    disconnected outside (lookup name s.clients) >>= λ _.
    if any (λ f. str_eq f session) s.sessions then outside.unlink session else ok tt

-- `remove_telegram_account`, with the state that it leaves, also where it raises
unfoldable pub remove_account :
    Outside → String → (confirmed : Bool) → Accounts → Result Exception Unit × Accounts
unfolding departed
remove_account outside name confirmed s =
    if not confirmed
    then (err (assistant "removing an account has to be confirmed"), s)
    else if is_known name s.telegram
    then elim (departed outside name s) [
      | err e ↦ (err e, record s { clients = erase name s.clients })
      | ok _ ↦ (ok tt, removed name s)
    ]
    else (err (no_account name), s)

abbrev pub switched : String → List Account → Accounts → Accounts
switched name accounts s =
    apply_settings (record s.telegram { active_account = name; accounts = accounts }) s

-- `switch_telegram_account`
unfoldable pub switch_account : String → Accounts → Result Exception Accounts
unfolding account
switch_account name s =
    if is_known name s.telegram
    then ok (switched name (map (with_enabled name true) s.telegram.accounts) s)
    else if str_eq name s.telegram.active_account
    then ok (switched name (record (account name s.telegram) { enabled = true } ∷ []) s)
    else err (no_account name)

-- `_account_client`: the client of an account, which is made if there is none
unfoldable pub account_client :
    Option String → Accounts → Result Exception (String × Client) × Accounts
unfolding account
account_client wanted s =
    let name = text_or (text_or (or_else wanted "") s.telegram.active_account) default_name in
    let a = account name s.telegram in
    let made = new_client (record a { name = name }) a.session_name in
    elim (lookup name s.clients) [
      | some client ↦ (ok (name, client), s)
      | none ↦
          if has_credentials a
          then (ok (name, made), record s { clients = insert name made s.clients })
          else (err (no_account name), s)
    ]
