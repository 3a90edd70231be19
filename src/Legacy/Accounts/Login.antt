-- ===== src/Legacy/Accounts/Login.antt =====
-- 0old/server/main.cpp: who can log in.
use f1985gfw.Base.{◌≡◌, refl, ◌∙◌, false, none, some, if◌then◌else◌, arith, Option-cases, inl, inr}
use f1985gfw.Base.Texts.{
  Text, TextMap, same_text, lookup, insert, lookup-insert, lookup-insert_other,
}
use f1985gfw.Legacy.Accounts.{
  Account, Request, request, thrown, already_registered, logged_in, password_error, register_user,
  login_user, register_handler, dispatch,
}

-- The password of a nickname after a registration is the one that was there, or else the new one.
pub register-password :
    (a : Account) (accounts : TextMap Text)
    → lookup a.nickname (register_user (request a) accounts).0
      ≡ some (elim (lookup a.nickname accounts) [ none ↦ a.password | some p ↦ p ])
unfolding register_user
register-password a accounts = elim (Option-cases (lookup a.nickname accounts)) [
  | inl new ↦ rw (new, register_user) (lookup-insert a.nickname a.password accounts ∙ rw new refl)
  | inr (p, old) ↦ rw (old, register_user) old
]

-- A registration changes no other nickname's password.
pub register-others :
    (a : Account) (j : Text) (accounts : TextMap Text)
    → same_text a.nickname j ≡ false
    → lookup j (register_user (request a) accounts).0 ≡ lookup j accounts
unfolding register_user
register-others a j accounts away = elim (Option-cases (lookup a.nickname accounts)) [
  | inl new ↦ rw (new, register_user) (lookup-insert_other j a.nickname a.password accounts away)
  | inr (p, old) ↦ rw (old, register_user) refl
]

-- After a nickname that was not taken is registered, a login with it succeeds with the password that was
-- registered, and with no other.
pub register-login :
    (a : Account) (password : Text) (accounts : TextMap Text)
    → lookup a.nickname accounts ≡ none
    → (login_user
        (request (record a { password = password }))
        (register_user (request a) accounts).0).1
      ≡ (if same_text a.password password
          then logged_in (record a { password = password })
          else password_error)
unfolding login_user
register-login a password accounts new = rw (login_user, register-password a accounts, new) refl

-- A second registration of a nickname is refused, and the first password stays.
pub register-again :
    (a : Account) (p : Text) (accounts : TextMap Text)
    → lookup a.nickname accounts ≡ some p
    → register_user (request a) accounts ≡ (accounts, already_registered)
unfolding register_user
register-again a p accounts old = rw (old, register_user) refl

-- A login never changes the accounts.
pub login-accounts : (r : Request) (accounts : TextMap Text) → (login_user r accounts).0 ≡ accounts
unfolding login_user
login-accounts (thrown what) accounts = refl
login-accounts (request a) accounts = ground arith

-- The first handler that is registered under a path that had none answers it, also after a second
-- one is registered under the same path.
pub dispatch-first :
    {S : Type 0} (key : Text) (body : Text) (first second : Text → S → S × Text)
    (handlers : TextMap (Text → S → S × Text)) (s : S)
    → lookup key handlers ≡ none
    → dispatch key body (register_handler key second (register_handler key first handlers)) s
      ≡ first body s
unfolding dispatch register_handler
dispatch-first key body first second handlers s new =
    rw
      (
        dispatch,
        lookup-insert key second (insert key first handlers),
        lookup-insert key first handlers,
        new,
      )
      refl
