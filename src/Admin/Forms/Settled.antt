-- ===== src/Admin/Forms/Settled.antt =====
-- What an answer makes of the form that waits for it, and what the modal's form edits.
use voting_app.Prelude.{◌≡◌, arith, is_empty, none, some, Text, ◌∷◌, [], false, ℕ, get_elem?}
use voting_app.Admin.CandidateForm
use voting_app.Admin.CandidateForm.{Form, submits_form, handle_submit, editing_form, adding_form}
use voting_app.Admin.Dashboard
use voting_app.Admin.Dashboard.{open_edit}
use voting_app.Admin.Dashboard.Handlers.{handle_update}
use voting_app.Admin.Forms.{Forms, render, of_page, in_edit, step, run}
use voting_app.Admin.Forms.Linked.{Linked}
use voting_app.Admin.Trim.{trim}
use voting_app.Api.{codes, update_candidate}
use voting_app.Types.{Candidate}

-- Two forms with the same texts and image.
abbrev pub SameInput : Form → Form → Type 0
SameInput f g =
    (f.name ≡ g.name)
    × (f.description ≡ g.description)
    × (f.image_file ≡ g.image_file)
    × (f.preview ≡ g.preview)

-- What the code does when the editor is opened on a second row while it is open on a first one: the
-- form keeps what it was mounted with, and its submission writes the first candidate's name and
-- description to the second one.
pub stale_edit_sent :
    (base : Text) (s : Forms) (i j : ℕ) (a b : Candidate)
    → s.edit_form ≡ none
    → s.dashboard.loading ≡ false
    → s.dashboard.form_loading ≡ false
    → get_elem? s.dashboard.candidates i ≡ some a
    → get_elem? s.dashboard.candidates j ≡ some b
    → is_empty (trim (codes a.name)) ≡ false
    → (run base s
        (of_page (open_edit i) ∷ of_page (open_edit j) ∷ in_edit submits_form ∷ [])).dashboard.sent
      ≡ update_candidate b.id (trim (codes a.name)) (trim a.description) none ∷ s.dashboard.sent
unfolding run step render Dashboard.handle Dashboard.enabled CandidateForm.handle
    CandidateForm.enabled handle_submit handle_update editing_form adding_form
stale_edit_sent base s i j a b e l f x y n = ground arith
