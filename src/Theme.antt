-- ===== src/Theme.antt =====
-- FrontEnd/src/utils/theme.ts, and FrontEnd/src/components/Navbar.tsx, which shows and toggles it.
-- The document's `data-theme` attribute is an argument; a text other than `dark` and `light` is read
-- with the cast's meaning, as itself.
use voting_app.Prelude.{
  refl, Option, some, Text, get_or_else, Bool, true, false, if◌then◌else◌, ◌≡◌, ◌≢◌, arith, String,
}
use voting_app.Api.{codes}
use voting_app.Storage.{Storage}

pub data Theme : Type 0 where
  dark light : Theme
  other : Text → Theme  -- what the cast `as Theme` lets through

pub record Document : Type 0 where
  pub data_theme : Option Theme
  pub storage : Storage

unfoldable pub get_theme : Document → Theme
get_theme d = get_or_else dark d.data_theme

abbrev pub is_dark : Theme → Bool
is_dark dark = true
is_dark light = false
is_dark (other s) = false

abbrev pub theme_text : Theme → Text
theme_text dark = codes "dark"
theme_text light = codes "light"
theme_text (other s) = s

unfoldable pub toggle_theme : Document → Document × Theme
unfolding get_theme
toggle_theme d =
    let next = if is_dark (get_theme d) then light else dark in
    (
      record {
        data_theme = some next;
        storage = record (d.storage) { theme = some (theme_text next) };
      },
      next,
    )

-- The navigation bar: the theme that it shows and the page that its admin link leads to.
pub record Navbar : Type 0 where
  pub theme : Theme
  pub document : Document

unfoldable pub navbar : Document → Navbar
unfolding get_theme
navbar d = record { theme = get_theme d; document = d }

unfoldable pub handle_toggle : Navbar → Navbar
unfolding toggle_theme
handle_toggle n = let (d, next) = toggle_theme n.document in record { theme = next; document = d }

unfoldable pub admin_link : Bool → Text
admin_link is_authenticated =
    if is_authenticated then codes "/admin/dashboard" else codes "/admin/login"

-- After a toggle the document, the storage and the theme that the caller is given agree, the theme
-- is dark or light and is not the one before, and a second toggle gives a theme that is dark exactly
-- if the first one was.
pub toggle_agrees :
    (d : Document)
    → (get_theme (toggle_theme d).0 ≡ (toggle_theme d).1)
      × ((toggle_theme d).0.storage.theme ≡ some (theme_text (toggle_theme d).1))
      × ((toggle_theme d).1 ≢ get_theme d)
      × (is_dark (toggle_theme (toggle_theme d).0).1 ≡ is_dark (get_theme d))
unfolding toggle_theme
toggle_agrees d = (refl, refl, ground arith, ground arith)

-- The bar shows the theme of the document, before and after each toggle.
pub handle_toggle_shows :
    (n : Navbar)
    → (get_theme (handle_toggle n).document ≡ (handle_toggle n).theme)
      × (get_theme (navbar n.document).document ≡ (navbar n.document).theme)
unfolding handle_toggle navbar
handle_toggle_shows n = (refl, refl)

-- What the bar shows, without styles: the icon of the theme that the button leads to, and its label.
pub data Icon : Type 0 where
  sun moon : Icon

pub record BarView : Type 0 where
  pub icon : Icon
  pub label : String
  pub link : Text

unfoldable pub bar_view : Bool → Navbar → BarView
unfolding admin_link
bar_view is_authenticated n = record {
  icon = if is_dark n.theme then sun else moon;
  label = if is_dark n.theme then "Switch to light mode" else "Switch to dark mode";
  link = admin_link is_authenticated;
}

-- A click changes the icon, and leaves the link.
pub toggle_label :
    (b : Bool) (n : Navbar)
    → n.theme ≡ get_theme n.document
    → ((bar_view b (handle_toggle n)).icon ≢ (bar_view b n).icon)
      × ((bar_view b (handle_toggle n)).link ≡ (bar_view b n).link)
unfolding bar_view handle_toggle
toggle_label b n e = ground arith
