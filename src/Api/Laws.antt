-- ===== src/Api/Laws.antt =====
-- Which resource a request of FrontEnd/src/services/api.ts names.
use voting_app.Prelude.{ℕ, Text, ◌≡◌, ◌↔◌, ◌++◌, List, [], ◌∷◌, Option, ap, tail_of}
use voting_app.Api.{codes, delete_candidate, update_candidate, delete_domain}
use voting_app.Decimal.{show, show-injective}

append_left_injective {ℓ} : {A : Type ℓ} (p x y : List A) → p ++ x ≡ p ++ y → x ≡ y
append_left_injective [] x y e = e
append_left_injective (a ∷ p) x y e = append_left_injective p x y (ap tail_of e)

-- An update and a deletion go to the same path exactly when they name the same candidate.
pub candidate_path_iff :
    (m n : ℕ) (name description : Text) (image : Option ℕ)
    → ((update_candidate m name description image).path ≡ (delete_candidate n).path) ↔ (m ≡ n)
unfolding update_candidate delete_candidate
candidate_path_iff m n name description image = (
  λ e. show-injective m n (append_left_injective (codes "/api/admin/candidates/") _ _ e),
  λ e. ap (λ k. codes "/api/admin/candidates/" ++ show k) e,
)

-- Two domain deletions go to the same path exactly when they name the same domain.
pub domain_path_iff : (m n : ℕ) → ((delete_domain m).path ≡ (delete_domain n).path) ↔ (m ≡ n)
unfolding delete_domain
domain_path_iff m n = (
  λ e. show-injective m n (append_left_injective (codes "/api/admin/email-domains/") _ _ e),
  λ e. ap (λ k. codes "/api/admin/email-domains/" ++ show k) e,
)
