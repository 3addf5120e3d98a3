-- ===== src/Admin/Dashboard/View.antt =====
-- What FrontEnd/src/pages/admin/Dashboard.tsx (lines 114 to 302) and its modals show, without styles.
use voting_app.Prelude.{
  map, ◌≡◌, length, [], true, suc, refl, zero, ◌&&◌, sym, Option, List, String, ℕ, Text, Bool, none,
  ◌==◌, ◌∷◌, some, false, get_elem?, is_some, ◌+◌, not,
}
use voting_app.Admin.Dashboard.{
  enabled, open_edit, open_delete, confirm_delete, cancel_delete, deletable,
}
use voting_app.Admin.Dashboard.Handlers.{Dashboard}
use voting_app.ImageUrl.{get_image_url}
use voting_app.Types.{Candidate}

-- A row of the roster. `can_delete` is false for the button that is disabled.
pub record Row : Type 0 where
  pub image : Option Text
  pub name : String
  pub description : Option Text  -- `none` for the text that there is none
  pub votes : ℕ
  pub can_delete : Bool

pub data Roster : Type 0 where
  spinner no_candidates : Roster
  rows : List Row → Roster

-- DeleteConfirmModal: the name, and whether its buttons work.
pub record Confirm : Type 0 where
  pub name : String
  pub disabled : Bool

pub record View : Type 0 where
  pub candidates : ℕ
  pub total_votes : ℕ
  pub roster : Roster
  pub add_busy : Bool
  pub edit : Option (Candidate × Bool)  -- EditCandidateModal, with the form's `loading`
  pub changing_password : Bool
  pub confirm : Option Confirm

abbrev description_of : Text → Option Text
description_of [] = none
description_of (c ∷ s) = some (c ∷ s)

unfoldable pub row : Text → Candidate → Row
row base c = record {
  image = get_image_url base c.image_path;
  name = c.name;
  description = description_of c.description;
  votes = c.total_votes;
  can_delete = c.total_votes == 0;
}

abbrev roster_of : Bool → List Candidate → List Row → Roster
roster_of true l rs = spinner
roster_of false [] rs = no_candidates
roster_of false (c ∷ l) rs = rows rs

abbrev edit_of : Option Candidate → Bool → Option (Candidate × Bool)
edit_of none loading = none
edit_of (some c) loading = some (c, loading)

abbrev confirm_of : Option Candidate → Bool → Option Confirm
confirm_of none loading = none
confirm_of (some c) loading = some (record { name = c.name; disabled = loading })

reduce_votes : ℕ → List Candidate → ℕ
reduce_votes sum [] = sum
reduce_votes sum (c ∷ l) = reduce_votes (sum + c.total_votes) l

unfoldable pub view : Text → Dashboard → View
unfolding row reduce_votes
view base d = record {
  candidates = length d.candidates;
  total_votes = reduce_votes 0 d.candidates;
  roster = roster_of d.loading d.candidates (map (row base) d.candidates);
  add_busy = d.form_loading;
  edit = edit_of d.edit_target d.form_loading;
  changing_password = d.change_pw_open;
  confirm = confirm_of d.delete_target d.delete_loading;
}

abbrev pub row_at : Roster → ℕ → Option Row
row_at spinner i = none
row_at no_candidates i = none
row_at (rows l) i = get_elem? l i

abbrev pub deletes : Option Row → Bool
deletes none = false
deletes (some r) = r.can_delete

abbrev pub confirms : Option Confirm → Bool
confirms none = false
confirms (some c) = not c.disabled

deletes-get :
    (base : Text) (l : List Candidate) (i : ℕ)
    → deletes (get_elem? (map (row base) l) i) ≡ deletable (get_elem? l i)
unfolding row
deletes-get base [] i = refl
deletes-get base (c ∷ l) zero = refl
deletes-get base (c ∷ l) (suc i) = deletes-get base l i

is_some-get :
    (base : Text) (l : List Candidate) (i : ℕ)
    → is_some (get_elem? (map (row base) l) i) ≡ is_some (get_elem? l i)
is_some-get base [] i = refl
is_some-get base (c ∷ l) zero = refl
is_some-get base (c ∷ l) (suc i) = is_some-get base l i

edit-roster :
    (base : Text) (b : Bool) (l : List Candidate) (i : ℕ)
    → (not b && is_some (get_elem? l i)) ≡ is_some (row_at (roster_of b l (map (row base) l)) i)
edit-roster base true l i = refl
edit-roster base false [] i = refl
edit-roster base false (c ∷ l) i = sym (is_some-get base (c ∷ l) i)

delete-roster :
    (base : Text) (b : Bool) (l : List Candidate) (i : ℕ)
    → (not b && deletable (get_elem? l i)) ≡ deletes (row_at (roster_of b l (map (row base) l)) i)
delete-roster base true l i = refl
delete-roster base false [] i = refl
delete-roster base false (c ∷ l) i = sym (deletes-get base (c ∷ l) i)

confirms-confirm_of :
    (o : Option Candidate) (b : Bool) → (is_some o && not b) ≡ confirms (confirm_of o b)
confirms-confirm_of none b = refl
confirms-confirm_of (some c) b = refl

-- The buttons that the page shows are those that the administrator can use: a row has an edit button
-- exactly if it can be edited, its delete button works exactly if its deletion can be asked for, and
-- the confirmation can be given, or called off, exactly while the modal is there with its buttons on.
pub view-enabled :
    (base : Text) (d : Dashboard) (i : ℕ)
    → (enabled d (open_edit i) ≡ is_some (row_at (view base d).roster i))
      × (enabled d (open_delete i) ≡ deletes (row_at (view base d).roster i))
      × (enabled d confirm_delete ≡ confirms (view base d).confirm)
      × (enabled d cancel_delete ≡ confirms (view base d).confirm)
unfolding view enabled
view-enabled base d i = (
  edit-roster base d.loading d.candidates i,
  delete-roster base d.loading d.candidates i,
  confirms-confirm_of d.delete_target d.delete_loading,
  confirms-confirm_of d.delete_target d.delete_loading,
)
