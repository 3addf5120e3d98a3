-- ===== src/Admin/Entry.antt =====
-- The way into the administration pages: `useAdminAuth` with its default value outside the provider
-- (FrontEnd/src/context/AdminAuthContext.tsx), the link of the navigation bar, and what React sees of
-- FrontEnd/src/pages/admin/Login.tsx.
use voting_app.Prelude.{
  ◌⊎◌, inl, inr, ◌≡◌, false, Option, some, if◌then◌else◌, arith, none, List, ◌∷◌, length, [], ◌<◌,
  Text, not, Bool, String, true, refl, ap,
}
use voting_app.Admin.Auth.{
  Auth, unset, provided, cleaned, me_answered, intercept, is_ok, login_answered, submit_answered,
  LoginForm,
}
use voting_app.Admin.Site.{
  submits, toggles_pass, enabled, login_answer, Site, Place, root, admin_login, admin_dashboard,
  Event, run, rerender, blank, step, handle, goes, me_answer, page, redirect, page_at,
  protected_route, go, in_admin, login_page,
}
use voting_app.Api.{ok, intercepts, Response, Failure, failed, message_of}

-- `defaultAuthValue`, which the pages outside the provider get.
abbrev default_auth : Auth
default_auth = record { is_authenticated = false; loading = false; on_unauthorized = unset }

-- `useContext(AdminAuthContext) ?? defaultAuthValue`.
unfoldable pub use_admin_auth : Option Auth → Auth
use_admin_auth none = default_auth
use_admin_auth (some a) = a

-- The context at a page of the site: there is one below `/admin` only.
abbrev pub context_of : Site → Option Auth
context_of s = if in_admin s.path then some s.auth else none

-- The target of the link `Admin`.
unfoldable pub link_target : Option Auth → Place
unfolding use_admin_auth
link_target a = if (use_admin_auth a).is_authenticated then admin_dashboard else admin_login

link_answer :
    (s : Site) (r : Response (Unit {0}))
    → s.path ≡ root
    → s.crashed ≡ false
    → let t = step s (goes (link_target (context_of s))) in
      (page t ≡ login_page)
      × (page (step t (me_answer r)) ≡ (if is_ok r then blank else login_page))
unfolding step enabled handle redirect rerender page_at protected_route go provided cleaned
    me_answered intercept intercepts link_target use_admin_auth
link_answer s r e c = ground arith

blank_crashed : (s : Site) → page s ≡ blank → s.crashed ≡ true
unfolding page_at protected_route
blank_crashed s e = ground arith

crashed_step : (s : Site) (e : Event) → s.crashed ≡ true → (step s e).crashed ≡ true
unfolding step enabled page_at
crashed_step s e c = ground arith

-- An application that is unmounted stays so.
crashed_run : (s : Site) (es : List Event) → s.crashed ≡ true → (run s es).crashed ≡ true
unfolding run
crashed_run s [] c = c
crashed_run s (e ∷ es) c = crashed_run (step s e) es (crashed_step s e c)

crashed_blank : (s : Site) → s.crashed ≡ true → page s ≡ blank
crashed_blank s c = ap (λ b. if b then blank else page_at s.auth s.path) c

broken :
    (r : Response (Unit {0})) (t : Site) (es : List Event)
    → page (step t (me_answer r)) ≡ (if is_ok r then blank else login_page)
    → is_ok r ≡ false ⊎ page (run (step t (me_answer r)) es) ≡ blank
broken (ok u) t es b =
    let c = blank_crashed (step t (me_answer (ok u))) b in
    inr (
      crashed_blank (run (step t (me_answer (ok u))) es)
        (crashed_run (step t (me_answer (ok u))) es c))
broken (failed f) t es b = inl refl

-- What the code does at the link on the public page: the login page comes first, whoever follows the
-- link. The answer to the check of the cookie leaves the login page if the server does not accept the
-- cookie; if it does, the application breaks, and the page stays blank whatever happens then.
pub link_breaks :
    (s : Site) (r : Response (Unit {0})) (es : List Event)
    → s.path ≡ root
    → s.crashed ≡ false
    → let t = step s (goes (link_target (context_of s))) in
      (page t ≡ login_page)
      × (page (step t (me_answer r)) ≡ (if is_ok r then blank else login_page))
      × (is_ok r ≡ false ⊎ page (run (step t (me_answer r)) es) ≡ blank)
link_breaks s r es e c =
    let (a, b) = link_answer s r e c in
    (a, b, broken r (step s (goes (link_target (context_of s)))) es b)

pub data HookCall : Type 0 where
  use_context use_navigate use_state use_callback : HookCall

-- The hooks that one render of `AdminLogin` calls, in order.
unfoldable pub login_hooks : Auth → List HookCall
login_hooks a =
    use_context
    ∷ use_navigate
    ∷ use_state
    ∷ use_state
    ∷ use_state
    ∷ use_state
    ∷ (if a.is_authenticated then [] else use_callback ∷ [])

-- What the code does when the cookie is accepted while the login page is shown: the page is rendered
-- again at the same path, and that render calls fewer hooks than the one before.
pub hooks_dropped :
    (s : Site)
    → page s ≡ login_page
    → let t = handle s (me_answer (ok tt)) in
      (t.path ≡ s.path) × (length (login_hooks t.auth) < length (login_hooks s.auth))
unfolding handle page_at protected_route me_answered intercept intercepts login_hooks
hooks_dropped s e = ground arith

-- However a login fails on the login page, the administrator is told: the page stays, with the server's
-- message or `Login failed` and the e-mail address and password that were typed, and nobody is signed in.
pub login_failure_shown :
    (s : Site) (f : Failure)
    → page s ≡ login_page
    → 0 < s.logins
    → let t = step s (login_answer (failed f)) in
      (page t ≡ login_page)
      × (t.form.error ≡ some (message_of "Login failed" f))
      × (t.form.email ≡ s.form.email)
      × (t.form.password ≡ s.form.password)
      × (t.auth.is_authenticated ≡ false)
unfolding step enabled handle redirect rerender page_at protected_route go provided cleaned
    login_answered submit_answered intercept intercepts
login_failure_shown s f p l = ground arith

-- What the login page shows, without styles and fixed texts.
pub record LoginView : Type 0 where
  pub email : Text
  pub password : Text
  pub password_hidden : Bool
  pub error : Option String
  pub button : String
  pub button_disabled : Bool

unfoldable pub login_view : Auth → LoginForm → LoginView
login_view a l = record {
  email = l.email;
  password = l.password;
  password_hidden = not l.show_pass;
  error = l.error;
  button = if a.loading then "Authenticating..." else "Enter Control Panel";
  button_disabled = a.loading;
}

-- Signing in is offered exactly where the button works, and the eye turns the hiding of the password.
pub login_view-enabled :
    (s : Site)
    → page s ≡ login_page
    → (enabled s submits ≡ not (login_view s.auth s.form).button_disabled)
      × ((login_view s.auth (handle s toggles_pass).form).password_hidden
          ≡ not (login_view s.auth s.form).password_hidden)
unfolding enabled login_view handle page_at protected_route
login_view-enabled s e = ground arith
