-- ===== src/ImageUrl.antt =====
-- FrontEnd/src/utils/imageUrl.ts. `BASE`, from the build's environment, is a parameter.
use voting_app.Prelude.{
  ◌==◌, Bool, true, false, ◌&&◌, Option, none, some, [], ◌∷◌, ◌++◌, Text, ◌≡◌, refl, ◌≢◌, ℕ, ◌↔◌,
  ap,
}
use voting_app.Api.{codes}

-- `s.startsWith(p)`.
abbrev pub starts_with : Text → Text → Bool
starts_with [] s = true
starts_with (a ∷ p) [] = false
starts_with (a ∷ p) (c ∷ s) = a == c && starts_with p s

abbrev absolute_or : Bool → Text → Text → Option Text
absolute_or true base path = some path
absolute_or false base path = some (base ++ path)

unfoldable pub get_image_url : Text → Text → Option Text
get_image_url base [] = none
get_image_url base (c ∷ s) = absolute_or (starts_with (codes "http") (c ∷ s)) base (c ∷ s)

absolute_or-ne-none : (t : Bool) (base path : Text) → absolute_or t base path ≢ none
absolute_or-ne-none true base path e = cc
absolute_or-ne-none false base path e = cc

-- A result, if there is one, starts with `http` and is left as it is by the conversion.
abbrev pub IsFull : Text → Option Text → Type 0
IsFull base none = Unit
IsFull base (some u) = (starts_with (codes "http") u ≡ true) × (get_image_url base u ≡ some u)

absolute-IsFull :
    (b : Text) (c : ℕ) (s : Text) (t : Bool)
    → starts_with (codes "http") (c ∷ s) ≡ t
    → IsFull (codes "http" ++ b) (absolute_or t (codes "http" ++ b) (c ∷ s))
unfolding get_image_url
absolute-IsFull b c s true e = (e, ap (λ t. absolute_or t (codes "http" ++ b) (c ∷ s)) e)
absolute-IsFull b c s false e = (refl, refl)

-- With a base that starts with `http`, the conversion gives no URL exactly for the empty path; every
-- URL that it gives starts with `http`, and converting it again gives the same URL.
pub get_image_url-IsFull :
    (b path : Text)
    → IsFull (codes "http" ++ b) (get_image_url (codes "http" ++ b) path)
      × ((get_image_url (codes "http" ++ b) path ≡ none) ↔ (path ≡ []))
unfolding get_image_url
get_image_url-IsFull b [] = (tt, (λ e. refl, λ e. refl))
get_image_url-IsFull b (c ∷ s) = (
  absolute-IsFull b c s (starts_with (codes "http") (c ∷ s)) refl,
  (λ e. absurd (absolute_or-ne-none (starts_with (codes "http") (c ∷ s)) _ _ e), λ e. cc),
)
