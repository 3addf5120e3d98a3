-- ===== src/Admin/Guard.antt =====
-- What the routes guard, over all events of Site.
use voting_app.Prelude.{
  Bool, ◌&&◌, ◌≡◌, arith, false, true, ◌+◌, Bool-cases, List, inl, ◌∷◌, inr, [],
}
use voting_app.Admin.Auth.{
  provided, cleaned, intercept, me_answered, login_answered, logout_answered, handle_submit,
  submit_answered, clears, fresh_form,
}
use voting_app.Admin.Site.{
  Event, step, run, load, logs_out, page, enabled, Page, Site, go, redirect, handle, page_at,
  protected_route, navigate, in_admin, home_page, login_page, dashboard_page, spinner, blank,
  rerender, Place, goes, is_dashboard_page, edits, logout_answer, me_answer, login_answer,
  past_login_answer, old_login_answer, other_answer, toggles_pass, submits,
}
use voting_app.Api.{intercepts, Response}

-- A page that stays is shown.
abbrev pub is_navigate : Page → Bool
is_navigate home_page = false
is_navigate login_page = false
is_navigate dashboard_page = false
is_navigate spinner = false
is_navigate blank = false
is_navigate (navigate p) = true

-- While the cookie is checked nobody is signed in, and no login is in flight; below `/admin` the
-- callback is the provider's.
abbrev pub Sound : Site → Type 0
Sound s =
    (s.auth.loading && s.auth.is_authenticated ≡ false)
    × (s.auth.loading ≡ true → s.logins + s.past_logins ≡ 0)
    × (in_admin s.path ≡ true → s.auth.on_unauthorized ≡ clears)

go-Sound : (p : Place) (s : Site) → Sound s → Sound (go p s)
unfolding go provided cleaned
go-Sound p s h = ground arith

redirect-Sound : (s : Site) → Sound s → Sound (redirect s)
unfolding redirect page_at protected_route
redirect-Sound s h = ground arith

redirect-settled : (s : Site) → Sound s → is_navigate (page (redirect s)) ≡ false
unfolding redirect page_at protected_route go provided cleaned
redirect-settled s h = ground arith

pub handle-Sound : (s : Site) (e : Event) → enabled s e ≡ true → Sound s → Sound (handle s e)
unfolding enabled handle page_at protected_route intercept me_answered login_answered
    logout_answered handle_submit submit_answered intercepts
handle-Sound s e a h = ground arith

pub rerender-Sound : (s t : Site) → Sound t → Sound (rerender s t)
unfolding rerender page_at
rerender-Sound s t h = ground arith

pub step-Sound : (s : Site) (e : Event) → Sound s → Sound (step s e)
unfolding step
step-Sound s e h = elim (Bool-cases (enabled s e)) [
  | inl a ↦ rw a (redirect-Sound _ (rerender-Sound s (handle s e) (handle-Sound s e a h)))
  | inr a ↦ rw a h
]

run-Sound : (s : Site) (es : List Event) → Sound s → Sound (run s es)
unfolding run
run-Sound s [] h = h
run-Sound s (e ∷ es) h = run-Sound (step s e) es (step-Sound s e h)

pub load-Sound : (p : Place) → Sound (load p)
unfolding load go provided cleaned redirect page_at protected_route
load-Sound p = ground arith

step-settled :
    (s : Site) (e : Event)
    → Sound s
    → is_navigate (page s) ≡ false
    → is_navigate (page (step s e)) ≡ false
unfolding step
step-settled s e h n = elim (Bool-cases (enabled s e)) [
  | inl a ↦ rw a (redirect-settled _ (rerender-Sound s (handle s e) (handle-Sound s e a h)))
  | inr a ↦ rw a n
]

run-settled :
    (s : Site) (es : List Event)
    → Sound s
    → is_navigate (page s) ≡ false
    → is_navigate (page (run s es)) ≡ false
unfolding run
run-settled s [] h n = n
run-settled s (e ∷ es) h n = run-settled (step s e) es (step-Sound s e h) (step-settled s e h n)

load-settled : (p : Place) → is_navigate (page (load p)) ≡ false
unfolding load go provided cleaned redirect page_at protected_route
load-settled p = ground arith

-- The redirects come to an end: wherever the application is loaded and whatever happens then, after
-- at most one redirect for each event the page that is rendered is one that stays.
pub redirects_settle : (p : Place) (es : List Event) → is_navigate (page (run (load p) es)) ≡ false
redirects_settle p es = run-settled (load p) es (load-Sound p) (load-settled p)

-- Whether the event brings an answer with status 401.
unfoldable pub is_refusal : Event → Bool
unfolding intercepts
is_refusal (goes p) = false
is_refusal (edits e p) = false
is_refusal toggles_pass = false
is_refusal submits = false
is_refusal logs_out = false
is_refusal (me_answer r) = intercepts r
is_refusal (login_answer r) = intercepts r
is_refusal (past_login_answer r) = intercepts r
is_refusal (old_login_answer r) = intercepts r
is_refusal (logout_answer r) = intercepts r
is_refusal (other_answer r) = intercepts r

pub handle_refused :
    (s : Site) (e : Event)
    → Sound s
    → is_refusal e ≡ true
    → in_admin (handle s e).path ≡ true
    → (handle s e).auth.is_authenticated ≡ false
unfolding enabled handle page_at protected_route intercept me_answered login_answered
    logout_answered handle_submit submit_answered intercepts go provided cleaned is_refusal
handle_refused s e h r i = ground arith

pub redirect_refused :
    (s : Site)
    → (in_admin s.path ≡ true → s.auth.is_authenticated ≡ false)
    → is_dashboard_page (page (redirect s)) ≡ false
unfolding redirect page_at protected_route go provided cleaned
redirect_refused s h = ground arith

pub rerender_refused :
    (s t : Site)
    → (in_admin t.path ≡ true → t.auth.is_authenticated ≡ false)
    → in_admin (rerender s t).path ≡ true
    → (rerender s t).auth.is_authenticated ≡ false
unfolding rerender page_at
rerender_refused s t h i = ground arith

-- A 401 does not leave the dashboard: after any answer with status 401, to whichever
-- request, the page shown is not the dashboard.
pub refusal_leaves :
    (p : Place) (es : List Event) (e : Event)
    → is_refusal e ≡ true
    → enabled (run (load p) es) e ≡ true
    → is_dashboard_page (page (step (run (load p) es) e)) ≡ false
unfolding step
refusal_leaves p es e r a = rw a (
    redirect_refused _ (
      rerender_refused (run (load p) es) (handle (run (load p) es) e)
        (handle_refused (run (load p) es) e (run-Sound (load p) es (load-Sound p)) r)))

-- What the code does when the administrator logs out on the dashboard: until the answer the
-- dashboard stays, since the login page that it goes to sends a signed-in user back; and any answer,
-- an error too, leads to an empty login form.
pub logout_shown :
    (s : Site) (r : Response (Unit {0}))
    → page s ≡ dashboard_page
    → (page (step s logs_out) ≡ dashboard_page)
      × (page (step (step s logs_out) (logout_answer r)) ≡ login_page)
      × ((step (step s logs_out) (logout_answer r)).form ≡ fresh_form)
unfolding step enabled redirect rerender handle page_at protected_route go provided cleaned
    intercept logout_answered intercepts
logout_shown s r d = ground arith
