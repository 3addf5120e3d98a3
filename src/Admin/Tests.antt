-- ===== src/Admin/Tests.antt =====
-- Runs of the administration pages at concrete events, and the theorems at them.
use voting_app.Prelude.{◌≡◌, ◌≢◌, refl, some, none, List, [], ◌∷◌, false}
use voting_app.Admin.Auth.{
  provided, cleaned, intercept, me_answered, login_answered, handle_submit, submit_answered,
  logout_answered,
}
use voting_app.Admin.Granted.{dashboard_granted}
use voting_app.Admin.Guard.{redirects_settle, is_navigate}
use voting_app.Admin.Site.{
  Event, step, run, load, goes, submits, edits, me_answer, login_answer, page, admin_login,
  admin_dashboard, dashboard_page, spinner, go, redirect, page_at, protected_route, handle, enabled,
  rerender,
}
use voting_app.Api.{ok, failed, http, network, intercepts}

-- The cookie is refused, and a login follows that the server accepts at the second attempt.
abbrev signing_in : List Event
signing_in =
    me_answer (failed (http 401 none))
    ∷ edits (b'a' ∷ []) (b'b' ∷ [])
    ∷ submits
    ∷ login_answer (failed (http 401 (some "no")))
    ∷ submits
    ∷ login_answer (ok tt)
    ∷ []

pages_test : page (load admin_dashboard) ≡ spinner
unfolding load go provided redirect page_at protected_route
pages_test = refl

signing_in_test : page (run (load admin_dashboard) signing_in) ≡ dashboard_page
unfolding run load step enabled rerender go provided cleaned redirect page_at protected_route handle
    intercept me_answered login_answered handle_submit submit_answered intercepts logout_answered
signing_in_test = refl

wrong_password_test :
    (run (load admin_login) (
      me_answer (failed network)
      ∷ submits
      ∷ login_answer (failed (http 401 (some "no")))
      ∷ [])).form.error
    ≡ some "no"
unfolding run load step enabled rerender go provided cleaned redirect page_at protected_route handle
    intercept me_answered login_answered handle_submit submit_answered intercepts logout_answered
wrong_password_test = refl

redirects_settle_example : is_navigate (page (run (load admin_dashboard) signing_in)) ≡ false
redirects_settle_example = redirects_settle admin_dashboard signing_in

dashboard_granted_example :
    page (
      run
        (load admin_dashboard)
        (me_answer (failed (http 401 none)) ∷ submits ∷ goes admin_dashboard ∷ []))
    ≢ dashboard_page
dashboard_granted_example =
    dashboard_granted admin_dashboard
      (me_answer (failed (http 401 none)) ∷ submits ∷ goes admin_dashboard ∷ []) refl
