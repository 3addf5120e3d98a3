-- ===== src/Admin/Auth.antt =====
-- FrontEnd/src/context/AdminAuthContext.tsx: the state of one mounted provider, with the callback
-- that it registers in FrontEnd/src/services/api.ts, and the form of FrontEnd/src/pages/admin/Login.tsx.
use voting_app.Prelude.{Option, none, some, String, Text, Bool, true, false, [], if◌then◌else◌}
use voting_app.Api.{Response, ok, failed, Request, intercepts, message_of, login}

-- `onUnauthorized`: null, the provider's `setIsAuthenticated(false)`, or the empty function that the
-- cleanup leaves.
pub data Callback : Type 0 where
  unset clears empty : Callback

pub record Auth : Type 0 where
  pub is_authenticated : Bool
  pub loading : Bool
  pub on_unauthorized : Callback

-- The provider after its effect has run.
unfoldable pub provided : Auth
provided = record { is_authenticated = false; loading = true; on_unauthorized = clears }

unfoldable pub cleaned : Auth → Auth
cleaned a = record a { on_unauthorized = empty }

abbrev call : Callback → Auth → Auth
call unset a = a
call clears a = record a { is_authenticated = false }
call empty a = a

-- The interceptor, which sees every answer before the code that waits for it.
unfoldable pub intercept {ℓ} : {A : Type ℓ} → Response A → Auth → Auth
unfolding intercepts
intercept r a = if intercepts r then call a.on_unauthorized a else a

abbrev pub is_ok {ℓ} : {A : Type ℓ} → Response A → Bool
is_ok (ok a) = true
is_ok (failed f) = false

-- `adminAPI.me()` with its `then`, `catch` and `finally`.
unfoldable pub me_answered : Response (Unit {0}) → Auth → Auth
unfolding intercept
me_answered r a = record (intercept r a) { is_authenticated = is_ok r; loading = false }

pub record LoginResult : Type 0 where
  pub success : Bool
  pub message : Option String

abbrev login_result : Response (Unit {0}) → LoginResult
login_result (ok u) = record { success = true; message = none }
login_result (failed f) = record { success = false; message = some (message_of "Login failed" f) }

-- `login` from the answer on.
unfoldable pub login_answered : Response (Unit {0}) → Auth → Auth × LoginResult
unfolding intercept
login_answered (ok u) a = (record a { is_authenticated = true }, login_result (ok u))
login_answered (failed f) a = (intercept {A = Unit {0}} (failed f) a, login_result (failed f))

-- `logout` from the answer on, whatever it is.
unfoldable pub logout_answered : Response (Unit {0}) → Auth → Auth
unfolding intercept
logout_answered r a = record (intercept r a) { is_authenticated = false }

pub record LoginForm : Type 0 where
  pub email : Text
  pub password : Text
  pub show_pass : Bool
  pub error : Option String

abbrev pub fresh_form : LoginForm
fresh_form = record { email = []; password = []; show_pass = false; error = none }

-- `handleSubmit` up to its `await`, with the request that `login` sends.
unfoldable pub handle_submit : LoginForm → LoginForm × Request
handle_submit l = (record l { error = none }, login l.email l.password)

abbrev message_or : Option String → String
message_or none = "Login failed"
message_or (some s) = s

-- `handleSubmit` from the result on; the last component says whether it goes to the dashboard.
unfoldable pub submit_answered : LoginResult → LoginForm → LoginForm × Bool
submit_answered r l =
    if r.success then (l, true) else (record l { error = some (message_or r.message) }, false)
