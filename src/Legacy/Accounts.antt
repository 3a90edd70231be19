-- ===== src/Legacy/Accounts.antt =====
-- 0old/server/main.cpp and 0old/server/net_mgr/net_http.hpp: the table of HTTP handlers, and the two that
-- register and log in accounts. JSON is a parameter: a body that parses to a nickname and a password, or
-- the text of the exception; the answers are the values that are written as JSON.
pub mod Login
use f1985gfw.Base.{
  ℕ, Bool, true, false, Option, none, some, List, [], ◌∷◌, if◌then◌else◌, ◌⊎◌, inl, inr,
}
use f1985gfw.Base.Texts.{Text, TextMap, same_text, lookup, insert}

-- `req_data`.
pub record Account : Type 0 where
  pub nickname : Text
  pub password : Text

-- What `nlohmann::json::parse` and `from_json` make of a body.
pub data Request : Type 0 where
  thrown : Text → Request
  request : Account → Request

-- The answers: their `result`, `msg` or `error`, and `data`.
pub data Answer : Type 0 where
  already_registered not_exists password_error : Answer
  failed_with : Text → Answer
  registered logged_in : Account → Answer

-- The handler of "/user/register-user" after parsing.
unfoldable pub register_user : Request → TextMap Text → TextMap Text × Answer
register_user (thrown what) accounts = (accounts, failed_with what)
register_user (request account) accounts = elim (lookup account.nickname accounts) [
  | some _ ↦ (accounts, already_registered)
  | none ↦ (insert account.nickname account.password accounts, registered account)
]

-- The handler of "/user/login-user" after parsing.
unfoldable pub login_user : Request → TextMap Text → TextMap Text × Answer
login_user (thrown what) accounts = (accounts, failed_with what)
login_user (request account) accounts = elim (lookup account.nickname accounts) [
  | none ↦ (accounts, not_exists)
  | some password ↦ (
    accounts,
    (if same_text password account.password then logged_in account else password_error),
  )
]

-- `register_get` and `register_post`.
unfoldable pub register_handler {ℓ} : {H : Type ℓ} → Text → H → TextMap H → TextMap H
register_handler key handler handlers = insert key handler handlers

-- `dispatch_get` and `dispatch_post`, with handlers that act on a state: no handler answers with an
-- empty body.
unfoldable pub dispatch : {S : Type 0} → Text → Text → TextMap (Text → S → S × Text) → S → S × Text
dispatch key body handlers s = elim (lookup key handlers) [
  | none ↦ (s, [])
  | some handler ↦ handler body s
]
