-- ===== src/Toasts/Screen.antt =====
-- FrontEnd/src/components/Toaster.tsx: the rows that it shows, without styles.
use voting_app.Prelude.{
  map, ◌≡◌, keep, Bool-cases, ◌∙◌, inl, ap, inr, sym, refl, String, List, Option, ℕ, none, [], Bool,
  ◌∷◌, some, not, ◌==◌,
}
use voting_app.Toasts.{Provider, dismiss, step, has_id}
use voting_app.Types.{Toast, ToastType, success, error, warning, info}

pub data Icon : Type 0 where
  check_circle alert_circle alert_triangle info_icon : Icon

abbrev pub icons : ToastType → Icon
icons success = check_circle
icons error = alert_circle
icons warning = alert_triangle
icons info = info_icon

pub record Row : Type 0 where
  pub icon : Icon
  pub message : String
  pub dismisses : ℕ  -- what its button removes

abbrev pub row : Toast → Row
row t = record { icon = icons t.type; message = t.message; dismisses = t.id }

-- Nothing is rendered without toasts.
abbrev pub or_nothing : List Row → Option (List Row)
or_nothing [] = none
or_nothing (r ∷ rs) = some (r ∷ rs)

unfoldable pub toaster : Provider → Option (List Row)
toaster p = or_nothing (map row p.toasts)

abbrev pub rows_of : Option (List Row) → List Row
rows_of none = []
rows_of (some rs) = rs

rows-toaster : (l : List Toast) → rows_of (or_nothing (map row l)) ≡ map row l
rows-toaster [] = refl
rows-toaster (t ∷ l) = refl

pub not_dismissing : ℕ → Row → Bool
not_dismissing id r = not (r.dismisses == id)

keep-row :
    (id : ℕ) (l : List Toast)
    → map row (keep (λ t. not (has_id id t)) l) ≡ keep (not_dismissing id) (map row l)
unfolding not_dismissing
keep-row id [] = refl
keep-row id (t ∷ l) = elim (Bool-cases (t.id == id)) [
  | inl e ↦ rw (e, keep-row id l) refl
  | inr e ↦ rw (e, keep-row id l) refl
]

-- The button of a row removes the rows with its toast's identifier and no other, in the same order.
pub click_removes :
    (p : Provider) (id : ℕ)
    → rows_of (toaster (step p (dismiss id))) ≡ keep (not_dismissing id) (rows_of (toaster p))
unfolding toaster step
click_removes p id =
    rows-toaster (keep (λ t. not (has_id id t)) p.toasts)
    ∙ keep-row id p.toasts
    ∙ ap (keep (not_dismissing id)) (sym (rows-toaster p.toasts))
