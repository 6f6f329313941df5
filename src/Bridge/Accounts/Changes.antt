-- ===== src/Bridge/Accounts/Changes.antt =====
-- What is left of an account that was removed, and what a switch changes.
use ai_agent_ollama.Base.{
  String, ◌≡◌, refl, sym, inl, inr, Bool, true, false, some, List, [], ◌∷◌, map, any, str_eq,
  eq_iff, Bool-cases, ◌&&◌, Result, ok, err, is_ok, arith,
}
use ai_agent_ollama.Base.Dict.{contains}
use ai_agent_ollama.Errors.{Exception}
use ai_agent_ollama.Bridge.Accounts.{
  Account, Accounts, account, has_name, is_known, first_named, with_enabled, apply_settings,
  sync_telegram_accounts, Outside, departed, persist_settings, switched, switch_account,
}

true-ne-false : true ≡ false → ⊥
true-ne-false h = cc

-- What a removal that went through leaves.
pub record IsRemoved (name : String) (before after : Accounts) : Type 0 where
  pub no_account : is_known name after.telegram ≡ false
  pub no_client : contains name after.clients ≡ false
  pub no_session :
      any (λ f. str_eq f (account name before.telegram).session_name) after.sessions ≡ false
  pub others :
      (other : String)
      → str_eq other name ≡ false
      → first_named other after.telegram.accounts ≡ first_named other before.telegram.accounts

-- What a removal that raised leaves: the accounts, their session files and the written settings.
pub record IsKept (before after : Accounts) : Type 0 where
  pub telegram : after.telegram ≡ before.telegram
  pub sessions : after.sessions ≡ before.sessions
  pub written : after.written ≡ before.written

-- A removal returns exactly if it is confirmed, the account is known, and neither the disconnection of
-- its client nor the deletion of its session file raises.
abbrev pub goes_through : Outside → String → Bool → Accounts → Bool
goes_through outside name confirmed s =
    confirmed && is_known name s.telegram && is_ok (departed outside name s)

-- How a removal ends.
pub data Removal (outside : Outside) (name : String) (confirmed : Bool) (before : Accounts)
    : Result Exception Unit × Accounts → Type 0 where
  went :
      (after : Accounts)
      → goes_through outside name confirmed before ≡ true
      → IsRemoved name before after
      → Removal outside name confirmed before (ok tt, after)
  raised :
      (e : Exception) (after : Accounts)
      → goes_through outside name confirmed before ≡ false
      → IsKept before after
      → Removal outside name confirmed before (err e, after)

first_named-enabled :
    (name : String) (accounts : List Account)
    → any (has_name name) accounts ≡ true
    → (a : Account) × (first_named name (map (with_enabled name true) accounts) ≡ some a)
      × (a.enabled ≡ true)
unfolding first_named
first_named-enabled name [] h = absurd (true-ne-false (sym h))
first_named-enabled name (a ∷ rest) h = elim (Bool-cases (str_eq a.name name)) [
  | inl e ↦ (record a { enabled = true }, rw (e, first_named) (rw e refl), refl)
  | inr n ↦ rw (n, first_named) (rw n (first_named-enabled name rest (rw n at h)))
]

first_named-others :
    (name other : String) (accounts : List Account)
    → str_eq other name ≡ false
    → first_named other (map (with_enabled name true) accounts) ≡ first_named other accounts
unfolding first_named
first_named-others name other [] n = refl
first_named-others name other (a ∷ rest) n = ground (
  arith,
  eq_iff a.name name,
  eq_iff a.name other,
  eq_iff other name,
  first_named-others name other rest n,
)

-- A switch to a known account makes it the active one and enables it, and leaves every account of
-- another name as it was.
pub switch_account_lem :
    (name : String) (s : Accounts)
    → is_known name s.telegram ≡ true
    → let after = switched name (map (with_enabled name true) s.telegram.accounts) s in
      (switch_account name s ≡ ok after)
      × (after.telegram.active_account ≡ name)
      × ((a : Account) × (first_named name after.telegram.accounts ≡ some a) × (a.enabled ≡ true))
      × ((other : String)
          → str_eq other name ≡ false
          → first_named other after.telegram.accounts ≡ first_named other s.telegram.accounts)
unfolding switch_account apply_settings persist_settings sync_telegram_accounts
switch_account_lem name s known = (
  rw (known, switch_account) refl,
  refl,
  first_named-enabled name s.telegram.accounts known,
  λ other n. first_named-others name other s.telegram.accounts n,
)
