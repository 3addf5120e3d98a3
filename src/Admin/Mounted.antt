-- ===== src/Admin/Mounted.antt =====
-- When the dashboard page is mounted, and what an answer with status 401 and a logout do to it.
use voting_app.Prelude.{
  ◌≡◌, Option, is_some, ℕ, Bool, subst, some, false, arith, Bool-cases, sym, true, Text, none, inl,
  List, inr, ap, ◌∷◌, ◌∙◌, refl, [], not,
}
use voting_app.Admin.Auth.{provided, cleaned}
use voting_app.Admin.Cards.{Cards, CardEvent, mounted_cards, answer_in, allowed}
use voting_app.Admin.Guard.{
  Sound, step-Sound, rerender_refused, load-Sound, handle_refused, redirect_refused, is_refusal,
}
use voting_app.Admin.Panel.{
  Panel, PanelEvent, of_site, of_card, on_site, on_card, intercepted, panel_step, panel_run,
  panel_load, shown,
}
use voting_app.Admin.Site
use voting_app.Admin.Site.{
  Site, Event, page, is_dashboard_page, dashboard_page, Place, logs_out, other_answer, step,
  enabled, handle, redirect, page_at, protected_route, go, load,
}
use voting_app.Api.{Response, intercepts}
use voting_app.Toasts.{Provider}

-- The page is there exactly while the site shows it.
pub record Mounted (p : Panel) : Type 0 where
  pub there : is_some p.cards ≡ is_dashboard_page (page p.site)
  pub sound : Sound p.site

is_some-shown : (b : Bool) (o : Option Cards) (t : Provider) → is_some (shown b o t) ≡ b
is_some-shown false o t = refl
is_some-shown true none t = refl
is_some-shown true (some w) t = refl

shown_not : (b : Bool) (o : Option Cards) (t : Provider) → b ≡ false → shown b o t ≡ none
shown_not true o t e = cc
shown_not false o t e = refl

site-on_site : (e : Event) (p : Panel) → (on_site e p).site ≡ step p.site e
unfolding on_site step
site-on_site e p = ground arith

on_site_there :
    (e : Event) (p : Panel)
    → is_some p.cards ≡ is_dashboard_page (page p.site)
    → is_some (on_site e p).cards ≡ is_dashboard_page (page (on_site e p).site)
unfolding on_site
on_site_there e p h = elim (Bool-cases (Site.enabled p.site e)) [
  | inl a ↦ rw a (is_some-shown _ _ p.provider)
  | inr a ↦ rw a h
]

on_site-Mounted : (e : Event) (p : Panel) → Mounted p → Mounted (on_site e p)
on_site-Mounted e p m = record {
  there = on_site_there e p m.there;
  sound = subst Sound (sym (site-on_site e p)) (step-Sound p.site e m.sound);
}

intercepted-Mounted :
    (o : Option (Response (Unit {0}))) (p : Panel) → Mounted p → Mounted (intercepted o p)
unfolding intercepted
intercepted-Mounted none p m = m
intercepted-Mounted (some r) p m = on_site-Mounted (other_answer r) p m

enabled_other :
    (s : Site) (r : Response (Unit {0})) → s.crashed ≡ false → enabled s (other_answer r) ≡ true
unfolding enabled
enabled_other s r c = ap not c

refused_unmounts :
    (p : Panel) (r : Response (Unit {0}))
    → Sound p.site
    → enabled p.site (other_answer r) ≡ true
    → intercepts r ≡ true
    → (on_site (other_answer r) p).cards ≡ none
unfolding on_site is_refusal
refused_unmounts p r s a h = rw a (
    shown_not _ _ p.provider (
      redirect_refused (Site.rerender p.site (Site.handle p.site (other_answer r))) (
        rerender_refused p.site (Site.handle p.site (other_answer r))
          (handle_refused p.site (other_answer r) s h))))

-- A page that is mounted is one of an application that is not unmounted.
Mounted-crashed : (p : Panel) (w : Cards) → Mounted p → p.cards ≡ some w → p.site.crashed ≡ false
Mounted-crashed p w m e = ground (arith, m.there)

load-page : (a : Place) → is_dashboard_page (page (load a)) ≡ false
unfolding load go provided cleaned redirect page_at protected_route
load-page a = ground arith

module _ (to_iso_string : ℕ → Text) (base : Text) where
  on_card-Mounted :
      (o : Option Cards) (e : CardEvent) (p : Panel)
      → p.cards ≡ o
      → Mounted p
      → Mounted (on_card to_iso_string base o e p)
  unfolding on_card
  on_card-Mounted none e p q m = m
  on_card-Mounted (some w) e p q m = elim (Bool-cases (allowed w e)) [
    | inl a ↦ rw a (
        intercepted-Mounted (answer_in e) _
          (record { there = sym (ap is_some q) ∙ m.there; sound = m.sound }))
    | inr a ↦ rw a m
  ]

  step-Mounted :
      (p : Panel) (e : PanelEvent) → Mounted p → Mounted (panel_step to_iso_string base p e)
  unfolding panel_step
  step-Mounted p (of_site e) m = on_site-Mounted e p m
  step-Mounted p (of_card e) m = on_card-Mounted p.cards e p refl m

  run-Mounted :
      (p : Panel) (es : List PanelEvent) → Mounted p → Mounted (panel_run to_iso_string base p es)
  unfolding panel_run
  run-Mounted p [] m = m
  run-Mounted p (e ∷ es) m = run-Mounted (panel_step to_iso_string base p e) es (step-Mounted p e m)

  load-Mounted : (a : Place) (t : Provider) → Mounted (panel_load a t)
  unfolding panel_load
  load-Mounted a t = record { there = sym (load-page a); sound = load-Sound a }

  -- Whatever the administrator does and the server answers, the dashboard page is mounted exactly while
  -- the site shows it.
  pub panel-Mounted :
      (a : Place) (t : Provider) (es : List PanelEvent)
      → Mounted (panel_run to_iso_string base (panel_load a t) es)
  panel-Mounted a t es = run-Mounted (panel_load a t) es (load-Mounted a t)

  -- Every answer with status 401 ends the dashboard page: wherever events have led, such an answer to
  -- any request of the page, of its cards or of its password modal unmounts the page. The code does not
  -- look what was refused: the answer to a change with a mistyped current password does the same.
  pub answer_401_unmounts :
      (a : Place) (t : Provider) (es : List PanelEvent) (w : Cards) (e : CardEvent)
      (r : Response (Unit {0}))
      → (panel_run to_iso_string base (panel_load a t) es).cards ≡ some w
      → allowed w e ≡ true
      → answer_in e ≡ some r
      → intercepts r ≡ true
      → (panel_step to_iso_string base
          (panel_run to_iso_string base (panel_load a t) es)
          (of_card e)).cards
        ≡ none
  unfolding panel_step on_card intercepted
  answer_401_unmounts a t es w e r q n i h =
      let m = panel-Mounted a t es in
      rw (q, n, i)
        (refused_unmounts _ r m.sound
          (enabled_other (panel_run to_iso_string base (panel_load a t) es).site r
            (Mounted-crashed _ w m q))
          h)

  -- What the code does at a click on `Secure Logout`: the dashboard page is mounted anew, with none of
  -- what it held, and asks for its data again, before the logout is answered.
  pub logout_remounts :
      (p : Panel)
      → page p.site ≡ dashboard_page
      → (page (panel_step to_iso_string base p (of_site logs_out)).site ≡ dashboard_page)
        × ((panel_step to_iso_string base p (of_site logs_out)).cards
            ≡ some (mounted_cards p.provider))
  unfolding panel_step on_site enabled handle redirect page_at protected_route go provided cleaned
  logout_remounts p e = ground arith
