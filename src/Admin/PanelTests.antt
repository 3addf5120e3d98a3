-- ===== src/Admin/PanelTests.antt =====
-- The way in and the site with its dashboard at concrete events, and the theorems at them.
use voting_app.Prelude.{◌≡◌, some, ◌∷◌, List, [], length, false, none, ◌<◌, arith, refl, ◌⊎◌}
use voting_app.Admin.Auth.{
  provided, cleaned, intercept, me_answered, login_answered, handle_submit, submit_answered,
  logout_answered, is_ok,
}
use voting_app.Admin.Cards.{mounted_cards, in_roster, allowed, in_card}
use voting_app.Admin.Dashboard
use voting_app.Admin.Dashboard.{mounted, fetched}
use voting_app.Admin.Dashboard.Handlers.{nobody, fetch_candidates}
use voting_app.Admin.Entry.{
  link_target, context_of, link_breaks, login_hooks, hooks_dropped, login_failure_shown,
}
use voting_app.Admin.Forms.{of_page}
use voting_app.Admin.Mounted.{answer_401_unmounts, logout_remounts}
use voting_app.Admin.Panel.{
  PanelEvent, of_site, of_card, on_site, on_card, intercepted, panel_step, panel_run, panel_load,
}
use voting_app.Admin.Site.{
  Site, step, run, load, goes, submits, logs_out, me_answer, login_answer, page, admin_login,
  admin_dashboard, root, dashboard_page, login_page, go, redirect, page_at, protected_route, handle,
  enabled, rerender, blank,
}
use voting_app.Api.{ok, failed, http, network, intercepts, Failure}
use voting_app.Decimal.{show}
use voting_app.Toasts.{Provider}

everything : Unit {0}
unfolding run load step enabled rerender go provided cleaned redirect page_at protected_route handle
    intercept me_answered login_answered handle_submit submit_answered intercepts logout_answered
    panel_step panel_run panel_load on_site on_card intercepted allowed in_card Dashboard.enabled
    Dashboard.mounted fetch_candidates mounted_cards
everything = tt

link_breaks_example :
    let t = step (load root) (goes (link_target (context_of (load root)))) in
    (page t ≡ login_page)
    × (page (step t (me_answer (ok tt))) ≡ blank)
    × ((is_ok {A = Unit {0}} (ok tt) ≡ false)
        ⊎ (page (run (step t (me_answer (ok tt))) (submits ∷ [])) ≡ blank))
unfolding everything
link_breaks_example = link_breaks (load root) (ok tt) (submits ∷ []) refl refl

hooks_dropped_example :
    ((handle (load admin_login) (me_answer (ok tt))).path ≡ (load admin_login).path)
    × (length (login_hooks (handle (load admin_login) (me_answer (ok tt))).auth)
        < length (login_hooks (load admin_login).auth))
unfolding everything
hooks_dropped_example = hooks_dropped (load admin_login) refl

abbrev trying : Site
trying = run (load admin_login) (me_answer (failed network) ∷ submits ∷ [])

abbrev refusal : Failure
refusal = http 401 (some "Wrong password")

login_failure_shown_example :
    (page (step trying (login_answer (failed refusal))) ≡ login_page)
    × ((step trying (login_answer (failed refusal))).form.error ≡ some "Wrong password")
    × ((step trying (login_answer (failed refusal))).form.email ≡ trying.form.email)
    × ((step trying (login_answer (failed refusal))).form.password ≡ trying.form.password)
    × ((step trying (login_answer (failed refusal))).auth.is_authenticated ≡ false)
unfolding everything
login_failure_shown_example = login_failure_shown trying refusal refl (omega arith)

abbrev no_toasts : Provider
no_toasts = record { toasts = []; timers = [] }

abbrev coming : List PanelEvent
coming = of_site (me_answer (ok tt)) ∷ []

answer_401_unmounts_example :
    (panel_step show []
      (panel_run show [] (panel_load admin_dashboard no_toasts) coming)
      (of_card (in_roster (of_page (fetched nobody 1 (failed refusal)))))).cards
    ≡ none
unfolding everything
answer_401_unmounts_example =
    answer_401_unmounts show [] admin_dashboard no_toasts coming (mounted_cards no_toasts)
      (in_roster (of_page (fetched nobody 1 (failed refusal)))) (failed refusal) refl refl refl refl

logout_remounts_example :
    let p = panel_run show [] (panel_load admin_dashboard no_toasts) coming in
    (page (panel_step show [] p (of_site logs_out)).site ≡ dashboard_page)
    × ((panel_step show [] p (of_site logs_out)).cards ≡ some (mounted_cards p.provider))
unfolding everything
logout_remounts_example =
    logout_remounts show [] (panel_run show [] (panel_load admin_dashboard no_toasts) coming) refl
