-- ===== src/Admin/Granted.antt =====
-- Who comes to the dashboard, over all events of Site.
use voting_app.Prelude.{Bool, ◌≡◌, arith, false, Bool-cases, List, inl, ◌∷◌, inr, [], any, ◌≢◌}
use voting_app.Admin.Auth.{
  provided, cleaned, intercept, me_answered, login_answered, logout_answered, handle_submit,
  submit_answered, is_ok,
}
use voting_app.Admin.Site.{
  Event, step, run, load, logs_out, page, enabled, Site, go, redirect, rerender, handle, page_at,
  protected_route, dashboard_page, Place, goes, edits, logout_answer, me_answer, login_answer,
  past_login_answer, old_login_answer, other_answer, toggles_pass, submits,
}
use voting_app.Api.{intercepts}

-- The answers that sign the administrator in.
abbrev pub is_grant : Event → Bool
is_grant (goes p) = false
is_grant (edits e p) = false
is_grant toggles_pass = false
is_grant submits = false
is_grant logs_out = false
is_grant (me_answer r) = is_ok r
is_grant (login_answer r) = is_ok r
is_grant (past_login_answer r) = is_ok r
is_grant (old_login_answer r) = false
is_grant (logout_answer r) = false
is_grant (other_answer r) = false

handle_ungranted :
    (s : Site) (e : Event)
    → s.auth.is_authenticated ≡ false
    → is_grant e ≡ false
    → (handle s e).auth.is_authenticated ≡ false
unfolding enabled handle page_at protected_route intercept me_answered login_answered
    logout_answered handle_submit submit_answered intercepts go provided cleaned
handle_ungranted s e h g = ground arith

redirect_unsigned :
    (s : Site) → s.auth.is_authenticated ≡ false → (redirect s).auth.is_authenticated ≡ false
unfolding redirect page_at protected_route go provided cleaned
redirect_unsigned s h = ground arith

rerender_unsigned :
    (s t : Site) → t.auth.is_authenticated ≡ false → (rerender s t).auth.is_authenticated ≡ false
unfolding rerender page_at
rerender_unsigned s t h = ground arith

step_ungranted :
    (s : Site) (e : Event)
    → s.auth.is_authenticated ≡ false
    → is_grant e ≡ false
    → (step s e).auth.is_authenticated ≡ false
unfolding step
step_ungranted s e h g = elim (Bool-cases (enabled s e)) [
  | inl a ↦ rw a (redirect_unsigned _ (rerender_unsigned s (handle s e) (handle_ungranted s e h g)))
  | inr a ↦ rw a h
]

run_ungranted :
    (s : Site) (es : List Event)
    → s.auth.is_authenticated ≡ false
    → any is_grant es ≡ false
    → (run s es).auth.is_authenticated ≡ false
unfolding run
run_ungranted s [] h g = h
run_ungranted s (e ∷ es) h g =
    run_ungranted (step s e) es (step_ungranted s e h (ground arith)) (ground arith)

load_unsigned : (p : Place) → (load p).auth.is_authenticated ≡ false
unfolding load go provided cleaned redirect page_at protected_route
load_unsigned p = ground arith

unsigned_page : (s : Site) → s.auth.is_authenticated ≡ false → page s ≢ dashboard_page
unfolding page_at protected_route
unsigned_page s h = ground arith

-- The dashboard is shown only if the server accepted the cookie or a login before: without such an
-- answer among the events no event leads to it.
pub dashboard_granted :
    (p : Place) (es : List Event)
    → any is_grant es ≡ false
    → page (run (load p) es) ≢ dashboard_page
dashboard_granted p es g =
    unsigned_page (run (load p) es) (run_ungranted (load p) es (load_unsigned p) g)
