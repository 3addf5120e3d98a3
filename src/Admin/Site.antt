-- ===== src/Admin/Site.antt =====
-- The routes of FrontEnd/src/App.tsx with FrontEnd/src/components/ProtectedRoute.tsx, and what the
-- administrator and the server do to them. The provider of Auth is mounted while the path is below
-- /admin. Each event is followed by the redirect, if any, of the page that is then rendered. The
-- pages' loading by `lazy` is left out.
use voting_app.Prelude.{
  ℕ, ◌+◌, ◌-◌, List, [], ◌∷◌, Text, Bool, true, false, not, ◌&&◌, if◌then◌else◌, ltb,
}
use voting_app.Admin.Auth.{
  Auth, unset, provided, cleaned, intercept, is_ok, me_answered, login_answered, logout_answered,
  LoginForm, fresh_form, handle_submit, submit_answered,
}
use voting_app.Api.{Request, Response, logout}

-- `/`, `/admin/login`, `/admin/dashboard`, another path below `/admin`, and any other path.
pub data Place : Type 0 where
  root admin_login admin_dashboard admin_other elsewhere : Place

pub data Page : Type 0 where
  home_page login_page dashboard_page spinner blank : Page
  navigate : Place → Page

abbrev pub in_admin : Place → Bool
in_admin root = false
in_admin admin_login = true
in_admin admin_dashboard = true
in_admin admin_other = true
in_admin elsewhere = false

-- `ProtectedRoute` around the dashboard.
unfoldable pub protected_route : Auth → Page
protected_route a =
    if a.loading
    then spinner
    else if not a.is_authenticated
    then navigate admin_login
    else dashboard_page

-- The element of the route that matches, in `App` and in `AdminRoutes`.
unfoldable pub page_at : Auth → Place → Page
unfolding protected_route
page_at a root = home_page
page_at a admin_login = if a.is_authenticated then navigate admin_dashboard else login_page
page_at a admin_dashboard = protected_route a
page_at a admin_other = navigate root
page_at a elsewhere = navigate root

pub record Site : Type 0 where
  pub path : Place
  pub auth : Auth
  pub form : LoginForm
  pub me_pending : Bool  -- the provider's check of the cookie is in flight
  pub logins : ℕ  -- logins in flight, sent by the mounted form
  pub past_logins : ℕ  -- logins in flight, sent under the mounted provider by a form that is gone
  pub old_logins : ℕ  -- logins in flight, sent from under a provider that is gone
  pub logouts : ℕ  -- logouts in flight, sent from under the mounted provider
  pub sent : List Request
  pub crashed : Bool  -- React has unmounted the application after an error

-- What the provider's mounting or its cleanup makes of the site, on a way between two paths.
abbrev cross : Bool → Bool → Site → Site
cross true true s = s
cross false false s = s
cross false true s = record s { auth = provided; me_pending = true; past_logins = 0; logouts = 0 }
cross true false s = record s {
  auth = cleaned s.auth;
  me_pending = false;
  past_logins = 0;
  old_logins = s.old_logins + s.past_logins;
  logouts = 0;
}

abbrev pub is_login : Place → Bool
is_login root = false
is_login admin_login = true
is_login admin_dashboard = false
is_login admin_other = false
is_login elsewhere = false

-- The form stays while the login page stays.
abbrev renew : Bool → Site → Site
renew true s = s
renew false s = record s { form = fresh_form; logins = 0; past_logins = s.past_logins + s.logins }

unfoldable pub go : Place → Site → Site
unfolding provided cleaned
go p s = record (cross (in_admin s.path) (in_admin p) (renew (is_login s.path && is_login p) s)) {
  path = p;
}

abbrev pub page : Site → Page
page s = if s.crashed then blank else page_at s.auth s.path

abbrev follow : Page → Site → Site
unfolding go
follow home_page s = s
follow login_page s = s
follow dashboard_page s = s
follow spinner s = s
follow blank s = s
follow (navigate p) s = go p s

-- `<Navigate>`, where the page is one.
unfoldable pub redirect : Site → Site
unfolding page_at go
redirect s = follow (page s) s

pub data Event : Type 0 where
  goes : Place → Event
  edits : Text → Text → Event
  toggles_pass submits logs_out : Event
  me_answer login_answer past_login_answer old_login_answer logout_answer other_answer :
      Response (Unit {0}) → Event

abbrev is_login_page : Page → Bool
is_login_page home_page = false
is_login_page login_page = true
is_login_page dashboard_page = false
is_login_page spinner = false
is_login_page blank = false
is_login_page (navigate p) = false

abbrev pub is_dashboard_page : Page → Bool
is_dashboard_page home_page = false
is_dashboard_page login_page = false
is_dashboard_page dashboard_page = true
is_dashboard_page spinner = false
is_dashboard_page blank = false
is_dashboard_page (navigate p) = false

-- Whether the page shown has the event's element, not disabled, or the answer's request is in flight.
-- Nothing reaches an application that is unmounted.
unfoldable pub enabled : Site → Event → Bool
unfolding page_at
enabled s (goes p) = not s.crashed
enabled s (edits e p) = is_login_page (page s)
enabled s toggles_pass = is_login_page (page s)
enabled s submits = is_login_page (page s) && not s.auth.loading
enabled s logs_out = is_dashboard_page (page s)
enabled s (me_answer r) = not s.crashed && s.me_pending
enabled s (login_answer r) = not s.crashed && ltb 0 s.logins
enabled s (past_login_answer r) = not s.crashed && ltb 0 s.past_logins
enabled s (old_login_answer r) = not s.crashed && ltb 0 s.old_logins
enabled s (logout_answer r) = not s.crashed && ltb 0 s.logouts
enabled s (other_answer r) = not s.crashed

abbrev go_if : Bool → Place → Site → Site
unfolding go
go_if true p s = go p s
go_if false p s = s

-- The code that the event runs; `logs_out` is the dashboard's `handleLogout`.
unfoldable pub handle : Site → Event → Site
unfolding go intercept me_answered login_answered logout_answered handle_submit submit_answered
handle s (goes p) = go p s
handle s (edits e p) = record s { form = record (s.form) { email = e; password = p } }
handle s toggles_pass = record s { form = record (s.form) { show_pass = not s.form.show_pass } }
handle s submits =
    let (form, request) = handle_submit s.form in
    record s { form = form; logins = s.logins + 1; sent = request ∷ s.sent }
handle s logs_out = go admin_login (record s { logouts = s.logouts + 1; sent = logout ∷ s.sent })
handle s (me_answer r) = record s { auth = me_answered r s.auth; me_pending = false }
handle s (login_answer r) =
    let (auth, result) = login_answered r s.auth in
    let (form, done) = submit_answered result s.form in
    go_if done admin_dashboard (record s { auth = auth; form = form; logins = s.logins - 1 })
handle s (past_login_answer r) =
    let (auth, result) = login_answered r s.auth in
    go_if result.success admin_dashboard (record s { auth = auth; past_logins = s.past_logins - 1 })
handle s (old_login_answer r) =
    go_if (is_ok r) admin_dashboard
      (record s { auth = intercept r s.auth; old_logins = s.old_logins - 1 })
handle s (logout_answer r) = record s { auth = logout_answered r s.auth; logouts = s.logouts - 1 }
handle s (other_answer r) = record s { auth = intercept r s.auth }

-- The render after an event that leads from `s` to `t`. A login page that stays mounted while
-- `isAuthenticated` turns true returns before its last hook: React throws, and without an error
-- boundary it unmounts the application.
unfoldable pub rerender : Site → Site → Site
unfolding page_at
rerender s t =
    if is_login_page (page s) && (is_login t.path && t.auth.is_authenticated)
    then record t { crashed = true }
    else t

unfoldable pub step : Site → Event → Site
unfolding handle redirect enabled rerender
step s e = if enabled s e then redirect (rerender s (handle s e)) else s

unfoldable pub run : Site → List Event → Site
run s [] = s
run s (e ∷ es) = run (step s e) es

-- The browser loads the application at a path.
unfoldable pub load : Place → Site
unfolding go redirect
load p = redirect (
    go p (record {
      path = root;
      auth = record { is_authenticated = false; loading = true; on_unauthorized = unset };
      form = fresh_form;
      me_pending = false;
      logins = 0;
      past_logins = 0;
      old_logins = 0;
      logouts = 0;
      sent = [];
      crashed = false;
    }))
