-- ===== src/Admin/Forms/Tests.antt =====
-- Runs of the dashboard with its forms at concrete events, and the theorems at them.
use voting_app.Prelude.{All, ◌≡◌, ◌∷◌, [], refl, List, some, none, Text}
use voting_app.Admin.CandidateForm
use voting_app.Admin.CandidateForm.{edit_name, submits_form, Form, adding_form}
use voting_app.Admin.Dashboard
use voting_app.Admin.Dashboard.{open_edit, fetched, add_answer, update_answer, cancel_edit}
use voting_app.Admin.Dashboard.Handlers.{
  handle_add, candidates_fetched, fetch_candidates, nobody, adding,
}
use voting_app.Admin.Forms.{Forms, Event, of_page, in_add, in_edit, step, run, mounted, render}
use voting_app.Admin.Forms.Moves.{forms_refine, all_moves, Named}
use voting_app.Admin.Forms.Settled.{stale_edit_sent}
use voting_app.Admin.Trim.{trim}
use voting_app.Api.{ok, failed, network, codes, or_empty, update_candidate}
use voting_app.Toasts.{Provider}
use voting_app.Types.{Candidate}

abbrev no_toasts : Provider
no_toasts = record { toasts = []; timers = [] }

abbrev base : Text
base = codes "http://localhost:8071"

abbrev ann : Candidate
ann = record {
  id = 1;
  name = "Ann";
  description = [];
  image_path = codes "/a";
  total_votes = 2;
  created_at = "";
}

abbrev bob : Candidate
bob = record {
  id = 2;
  name = "Bob";
  description = [];
  image_path = [];
  total_votes = 0;
  created_at = "";
}

-- A candidate is added on a second attempt, and then one is edited.
abbrev work : List Event
work =
    of_page (fetched nobody 1 (ok (some (ann ∷ bob ∷ []))))
    ∷ in_add submits_form
    ∷ in_add (edit_name (codes " Eve "))
    ∷ in_add submits_form
    ∷ in_add submits_form
    ∷ of_page (add_answer 2 (failed network))
    ∷ in_add submits_form
    ∷ of_page (add_answer 3 (ok tt))
    ∷ of_page (fetched adding 4 (failed network))
    ∷ of_page (open_edit 1)
    ∷ in_edit (edit_name (codes "Rob"))
    ∷ in_edit submits_form
    ∷ of_page (update_answer 5 (ok tt))
    ∷ []

forms_refine_example :
    ((run base (mounted no_toasts) work).dashboard
      ≡ Dashboard.run (Dashboard.mounted no_toasts) (all_moves base (mounted no_toasts) work))
    × All Named (all_moves base (mounted no_toasts) work)
forms_refine_example = forms_refine base no_toasts work

abbrev adding_one : List Event
adding_one = in_add (edit_name (codes "Eve")) ∷ in_add submits_form ∷ []

abbrev listed : Forms
listed = run base (mounted no_toasts) (of_page (fetched nobody 1 (ok (some (ann ∷ bob ∷ [])))) ∷ [])

everything : Unit {0}
unfolding run step mounted render Dashboard.mounted Dashboard.handle Dashboard.enabled
    CandidateForm.handle CandidateForm.enabled CandidateForm.handle_submit adding_form
    CandidateForm.editing_form handle_add candidates_fetched fetch_candidates or_empty trim
everything = tt

stale_edit_sent_example :
    (run base listed
      (of_page (open_edit 0) ∷ of_page (open_edit 1) ∷ in_edit submits_form ∷ [])).dashboard.sent
    ≡ update_candidate 2 (trim (codes "Ann")) (trim []) none ∷ listed.dashboard.sent
unfolding everything
stale_edit_sent_example = stale_edit_sent base listed 0 1 ann bob refl refl refl refl refl refl
