-- ===== src/Admin/Forms.antt =====
-- The dashboard (FrontEnd/src/pages/admin/Dashboard.tsx) with its two candidate forms: the one that
-- adds, and the one in the modal that edits (FrontEnd/src/components/admin/EditCandidateModal.tsx).
-- A submitted form calls the dashboard's handler; the forms get `formLoading` with every render, and
-- the handler's promise settles the form that waits for it. `base` is the build's `VITE_API_URL`.
pub mod Linked
pub mod Moves
pub mod Settled
mod Tests
use voting_app.Prelude.{
  Text, Bool, true, false, Option, none, some, List, [], ◌∷◌, ◌&&◌, if◌then◌else◌,
}
use voting_app.Admin.CandidateForm
use voting_app.Admin.CandidateForm.{
  Form, parent_loads, settled, submits_form, values, adding_form, editing_form,
}
use voting_app.Admin.Dashboard
use voting_app.Admin.Dashboard.{fetched, add_answer, update_answer, submit_add, submit_edit}
use voting_app.Admin.Dashboard.Handlers.{adding, Dashboard, FormValues}
use voting_app.Api.{failed}
use voting_app.Toasts.{Provider}
use voting_app.Types.{Candidate}

pub record Forms : Type 0 where
  pub dashboard : Dashboard
  pub add_form : Form
  pub edit_form : Option Form

pub data Event : Type 0 where
  of_page : Dashboard.Event → Event
  in_add in_edit : CandidateForm.Event → Event

-- The events of a form that come from its user and the browser.
abbrev pub own : CandidateForm.Event → Bool
own (parent_loads b) = false
own (settled success) = false
own e = true

-- The events of the page that come from outside its forms.
abbrev pub outer : Dashboard.Event → Bool
outer (submit_add v) = false
outer (submit_edit v) = false
outer e = true

abbrev pub loads : Bool → Form → Form
loads b f = CandidateForm.handle f (parent_loads b)

abbrev pub loads_opt : Bool → Option Form → Option Form
loads_opt b none = none
loads_opt b (some f) = some (loads b f)

-- The promise of `handleAdd`: rejected with the answer, or resolved once the list was asked for.
abbrev pub settle_add : Dashboard.Event → Form → Form
settle_add (add_answer id (failed x)) f = CandidateForm.step f (settled false)
settle_add (fetched adding id r) f = CandidateForm.step f (settled true)
settle_add e f = f

-- That of `handleUpdate`: its form is gone where it is resolved.
abbrev pub settle_edit : Dashboard.Event → Option Form → Option Form
settle_edit (update_answer id (failed x)) (some f) = some (CandidateForm.step f (settled false))
settle_edit e f = f

-- The call of `onSubmit`.
abbrev pub on_submit :
    (FormValues → Dashboard.Event) → CandidateForm.Event → Form → Dashboard → Dashboard
on_submit ev submits_form f d = Dashboard.handle d (ev (values f))
on_submit ev e f d = d

-- The page's own events, with the promises that they settle.
abbrev pub on_page : Dashboard.Event → Forms → Forms
on_page e s = record {
  dashboard = Dashboard.handle s.dashboard e;
  add_form = settle_add e s.add_form;
  edit_form = settle_edit e s.edit_form;
}

abbrev pub in_add_form : CandidateForm.Event → Forms → Forms
in_add_form e s = record s {
  add_form = CandidateForm.handle s.add_form e;
  dashboard = on_submit submit_add e s.add_form s.dashboard;
}

abbrev enabled_in_edit : Option Form → CandidateForm.Event → Bool
unfolding CandidateForm.enabled
enabled_in_edit none e = false
enabled_in_edit (some f) e = own e && CandidateForm.enabled f e

-- Whether the page has the event's element, not disabled, or the answer is awaited.
unfoldable pub enabled : Forms → Event → Bool
unfolding Dashboard.enabled CandidateForm.enabled
enabled s (of_page e) = outer e && Dashboard.enabled s.dashboard e
enabled s (in_add e) = own e && CandidateForm.enabled s.add_form e
enabled s (in_edit e) = enabled_in_edit s.edit_form e

module _ (base : Text) where
  -- The modal has one form for as long as there is a candidate to edit.
  abbrev pub modal_form : Option Candidate → Option Form → Option Form
  modal_form none f = none
  modal_form (some c) none = some (editing_form base c)
  modal_form (some c) (some f) = some f

  unfoldable pub render : Forms → Forms
  unfolding CandidateForm.handle editing_form
  render s = record s {
    add_form = loads s.dashboard.form_loading s.add_form;
    edit_form = loads_opt s.dashboard.form_loading (modal_form s.dashboard.edit_target s.edit_form);
  }

  abbrev pub in_edit_form : CandidateForm.Event → Option Form → Forms → Forms
  in_edit_form e none s = s
  in_edit_form e (some f) s =
      if own e && CandidateForm.enabled f e
      then render (record s {
        edit_form = some (CandidateForm.handle f e);
        dashboard = on_submit submit_edit e f s.dashboard;
      })
      else s

  unfoldable pub step : Forms → Event → Forms
  unfolding Dashboard.handle Dashboard.enabled CandidateForm.handle CandidateForm.enabled
      CandidateForm.step render
  step s (of_page e) =
      if outer e && Dashboard.enabled s.dashboard e then render (on_page e s) else s
  step s (in_add e) =
      if own e && CandidateForm.enabled s.add_form e then render (in_add_form e s) else s
  step s (in_edit e) = in_edit_form e s.edit_form s

  unfoldable pub run : Forms → List Event → Forms
  run s [] = s
  run s (e ∷ es) = run (step s e) es

-- The page as it is mounted.
unfoldable pub mounted : Provider → Forms
unfolding Dashboard.mounted adding_form
mounted p = record { dashboard = Dashboard.mounted p; add_form = adding_form; edit_form = none }
