-- ===== src/Admin/Panel.antt =====
-- The site with the dashboard page: which events mount and unmount the page, and what the answers to
-- its requests do to the authentication. What the page holds is kept while its route stays rendered; a
-- render that redirects away and back mounts it anew. Toasts of a page that is gone are left out.
use voting_app.Prelude.{
  Option, none, ℕ, if◌then◌else◌, Bool, some, Text, List, ◌∷◌, false, [], true,
}
use voting_app.Admin.Cards.{Cards, CardEvent, mounted_cards, answer_in, allowed, in_card}
use voting_app.Admin.Site
use voting_app.Admin.Site.{Site, Event, other_answer, page, is_dashboard_page, load, Place}
use voting_app.Api.{Response}
use voting_app.Toasts.{Provider}

pub record Panel : Type 0 where
  pub site : Site
  pub cards : Option Cards
  pub provider : Provider

-- The page that a render of the site shows.
abbrev pub shown : Bool → Option Cards → Provider → Option Cards
shown false w t = none
shown true none t = some (mounted_cards t)
shown true (some w) t = some w

abbrev pub keep_if : Bool → Option Cards → Option Cards
keep_if false w = none
keep_if true w = w

-- An event of the site: the page that it leaves is rendered, and then the redirect.
unfoldable pub on_site : Event → Panel → Panel
unfolding Site.handle Site.redirect Site.enabled Site.rerender
on_site e p =
    let s = Site.rerender p.site (Site.handle p.site e) in
    let t = Site.redirect s in
    if Site.enabled p.site e
    then record p {
      site = t;
      cards =
          shown (is_dashboard_page (page t)) (keep_if (is_dashboard_page (page s)) p.cards)
            p.provider;
    }
    else p

-- The interceptor sees an answer.
unfoldable pub intercepted : Option (Response (Unit {0})) → Panel → Panel
unfolding on_site
intercepted none p = p
intercepted (some r) p = on_site (other_answer r) p

pub data PanelEvent : Type 0 where
  of_site : Event → PanelEvent
  of_card : CardEvent → PanelEvent

module _ (to_iso_string : ℕ → Text) (base : Text) where
  -- An event of the page, if it is mounted.
  unfoldable pub on_card : Option Cards → CardEvent → Panel → Panel
  unfolding allowed in_card intercepted
  on_card none e p = p
  on_card (some w) e p =
      let (v, t) = in_card to_iso_string base e p.provider w in
      if allowed w e
      then intercepted (answer_in e) (record p { cards = some v; provider = t })
      else p

  unfoldable pub panel_step : Panel → PanelEvent → Panel
  unfolding on_site on_card
  panel_step p (of_site e) = on_site e p
  panel_step p (of_card e) = on_card p.cards e p

  unfoldable pub panel_run : Panel → List PanelEvent → Panel
  panel_run p [] = p
  panel_run p (e ∷ es) = panel_run (panel_step p e) es

unfoldable pub panel_load : Place → Provider → Panel
unfolding load
panel_load a t = record { site = load a; cards = none; provider = t }
