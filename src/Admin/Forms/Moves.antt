-- ===== src/Admin/Forms/Moves.antt =====
-- What the forms make the dashboard do.
use voting_app.Prelude.{
  All, ◌≡◌, arith, none, refl, Bool-cases, ◌&&◌, inl, inr, ◌∙◌, sym, ap, Option, some, Text, List,
  ◌∷◌, ◌++◌, [], true, false, if◌then◌else◌, is_some, subst, All-append,
}
use voting_app.Admin.CandidateForm
use voting_app.Admin.CandidateForm.{
  Form, submits_form, values, parent_loads, edit_name, edit_description, reads, crop_complete,
  crop_save, crop_cancel, clear, crop_done, settled,
}
use voting_app.Admin.CandidateForm.Crop.{IsNamed}
use voting_app.Admin.Dashboard
use voting_app.Admin.Dashboard.{
  submit_add, submit_edit, open_edit, open_delete, cancel_edit, cancel_delete, confirm_delete,
  open_password, close_password, fetched, add_answer, update_answer, delete_answer,
}
use voting_app.Admin.Dashboard.Handlers.{Dashboard, FormValues}
use voting_app.Admin.Dashboard.Writes.{Single, run-Single}
use voting_app.Admin.Forms.{
  own, outer, on_submit, Forms, Event, render, in_edit_form, of_page, in_add, in_edit, step, run,
  mounted,
}
use voting_app.Admin.Forms.Linked.{Linked, Loads, step-Linked, mounted-Linked}
use voting_app.Admin.Trim.{trim-bare}
use voting_app.Toasts.{Provider}

-- What a submission of the form makes the dashboard do.
abbrev submitting :
    (FormValues → Dashboard.Event) → Form → CandidateForm.Event → List Dashboard.Event
submitting ev f submits_form =
    if CandidateForm.enabled f submits_form then ev (values f) ∷ [] else []
submitting ev f e = []

abbrev edit_moves : CandidateForm.Event → Option Form → List Dashboard.Event
edit_moves e none = []
edit_moves e (some f) = submitting submit_edit f e

-- The dashboard's events in an event of the page.
abbrev pub moves : Forms → Event → List Dashboard.Event
moves s (of_page e) = if outer e then e ∷ [] else []
moves s (in_add e) = submitting submit_add s.add_form e
moves s (in_edit e) = edit_moves e s.edit_form

-- What is submitted, if anything, has a name, with no white space at either end.
abbrev pub Named : Dashboard.Event → Type 0
Named (submit_add v) = IsNamed v
Named (submit_edit v) = IsNamed v
Named e = Unit

values-IsNamed : (f : Form) → CandidateForm.enabled f submits_form ≡ true → IsNamed (values f)
unfolding CandidateForm.enabled
values-IsNamed f h = (ground arith, (trim-bare f.name).0, (trim-bare f.name).1)

submitting-Named :
    (ev : FormValues → Dashboard.Event) (f : Form) (e : CandidateForm.Event)
    → ((v : FormValues) → IsNamed v → Named (ev v))
    → All Named (submitting ev f e)
submitting-Named ev f submits_form h = elim (Bool-cases (CandidateForm.enabled f submits_form)) [
  | inl a ↦ rw a (h (values f) (values-IsNamed f a), tt)
  | inr a ↦ rw a tt
]
submitting-Named ev f (parent_loads b) h = tt
submitting-Named ev f (edit_name t) h = tt
submitting-Named ev f (edit_description t) h = tt
submitting-Named ev f (reads src) h = tt
submitting-Named ev f (crop_complete a) h = tt
submitting-Named ev f crop_save h = tt
submitting-Named ev f crop_cancel h = tt
submitting-Named ev f clear h = tt
submitting-Named ev f (crop_done r) h = tt
submitting-Named ev f (settled success) h = tt

outer-Named : (e : Dashboard.Event) → All Named (if outer e then e ∷ [] else [])
outer-Named (open_edit i) = (tt, tt)
outer-Named (open_delete i) = (tt, tt)
outer-Named cancel_edit = (tt, tt)
outer-Named cancel_delete = (tt, tt)
outer-Named confirm_delete = (tt, tt)
outer-Named open_password = (tt, tt)
outer-Named close_password = (tt, tt)
outer-Named (submit_add v) = tt
outer-Named (submit_edit v) = tt
outer-Named (fetched caller id r) = (tt, tt)
outer-Named (add_answer id r) = (tt, tt)
outer-Named (update_answer id r) = (tt, tt)
outer-Named (delete_answer id r) = (tt, tt)

submit_add-run :
    (d : Dashboard) (f : Form) (e : CandidateForm.Event)
    → f.loading ≡ d.form_loading
    → own e && CandidateForm.enabled f e ≡ true
    → on_submit submit_add e f d ≡ Dashboard.run d (submitting submit_add f e)
unfolding Dashboard.run Dashboard.step Dashboard.handle Dashboard.enabled CandidateForm.enabled
submit_add-run d f e l h = ground arith

submit_edit-run :
    (d : Dashboard) (f : Form) (e : CandidateForm.Event)
    → f.loading ≡ d.form_loading
    → is_some d.edit_target ≡ true
    → own e && CandidateForm.enabled f e ≡ true
    → on_submit submit_edit e f d ≡ Dashboard.run d (submitting submit_edit f e)
unfolding Dashboard.run Dashboard.step Dashboard.handle Dashboard.enabled CandidateForm.enabled
submit_edit-run d f e l t h = ground arith

submitting_none :
    (ev : FormValues → Dashboard.Event) (f : Form) (e : CandidateForm.Event)
    → own e && CandidateForm.enabled f e ≡ false
    → submitting ev f e ≡ []
submitting_none ev f e h = ground arith

edit_moves-Named : (e : CandidateForm.Event) (o : Option Form) → All Named (edit_moves e o)
edit_moves-Named e none = tt
edit_moves-Named e (some f) = submitting-Named submit_edit f e (λ v h. h)

moves-Named : (s : Forms) (e : Event) → All Named (moves s e)
moves-Named s (of_page e) = outer-Named e
moves-Named s (in_add e) = submitting-Named submit_add s.add_form e (λ v h. h)
moves-Named s (in_edit e) = edit_moves-Named e s.edit_form

run-append :
    (d : Dashboard) (xs ys : List Dashboard.Event)
    → Dashboard.run d (xs ++ ys) ≡ Dashboard.run (Dashboard.run d xs) ys
unfolding Dashboard.run
run-append d [] ys = refl
run-append d (x ∷ xs) ys = run-append (Dashboard.step d x) xs ys

module _ (base : Text) where
  page_moves :
      (s : Forms) (e : Dashboard.Event)
      → (step base s (of_page e)).dashboard ≡ Dashboard.run s.dashboard (moves s (of_page e))
  unfolding step render Dashboard.run Dashboard.step
  page_moves s e = ground arith

  add_moves :
      (s : Forms) (e : CandidateForm.Event)
      → Linked s
      → (step base s (in_add e)).dashboard ≡ Dashboard.run s.dashboard (moves s (in_add e))
  unfolding step render Dashboard.run
  add_moves s e h = elim (Bool-cases (own e && CandidateForm.enabled s.add_form e)) [
    | inl a ↦ rw a (submit_add-run s.dashboard s.add_form e h.add_loads a)
    | inr a ↦ rw a (rw (submitting_none submit_add s.add_form e a) refl)
  ]

  modal_moves :
      (e : CandidateForm.Event) (o : Option Form) (s : Forms)
      → Loads s.dashboard.form_loading o
      → is_some o ≡ is_some s.dashboard.edit_target
      → (in_edit_form base e o s).dashboard ≡ Dashboard.run s.dashboard (edit_moves e o)
  unfolding render Dashboard.run
  modal_moves e none s l t = refl
  modal_moves e (some f) s l t = elim (Bool-cases (own e && CandidateForm.enabled f e)) [
    | inl a ↦ rw a (submit_edit-run s.dashboard f e l (sym t) a)
    | inr a ↦ rw a (rw (submitting_none submit_edit f e a) refl)
  ]

  step-moves :
      (s : Forms) (e : Event)
      → Linked s
      → (step base s e).dashboard ≡ Dashboard.run s.dashboard (moves s e)
  unfolding step
  step-moves s (of_page e) h = page_moves s e
  step-moves s (in_add e) h = add_moves s e h
  step-moves s (in_edit e) h = modal_moves e s.edit_form s h.edit_loads h.there

  unfoldable pub all_moves : Forms → List Event → List Dashboard.Event
  unfolding step
  all_moves s [] = []
  all_moves s (e ∷ es) = moves s e ++ all_moves (step base s e) es

  all_moves-Named : (s : Forms) (es : List Event) → All Named (all_moves s es)
  unfolding all_moves
  all_moves-Named s [] = tt
  all_moves-Named s (e ∷ es) =
      All-append Named (moves s e) _ (moves-Named s e) (all_moves-Named (step base s e) es)

  run-moves :
      (s : Forms) (es : List Event)
      → Linked s
      → (run base s es).dashboard ≡ Dashboard.run s.dashboard (all_moves s es)
  unfolding run all_moves Dashboard.run
  run-moves s [] h = refl
  run-moves s (e ∷ es) h =
      run-moves (step base s e) es (step-Linked base s e h)
      ∙ (ap (λ d. Dashboard.run d (all_moves (step base s e) es)) (step-moves s e h)
          ∙ sym (run-append s.dashboard (moves s e) (all_moves (step base s e) es)))

  -- The page with its forms does what the dashboard alone does: a run of them is the dashboard's run
  -- on the events that come to it and on one submission for each that a form allows, and each
  -- submission has a name that is not empty, with no white space at either end.
  pub forms_refine :
      (p : Provider) (es : List Event)
      → ((run base (mounted p) es).dashboard
          ≡ Dashboard.run (Dashboard.mounted p) (all_moves (mounted p) es))
        × All Named (all_moves (mounted p) es)
  unfolding mounted
  forms_refine p es = (run-moves (mounted p) es (mounted-Linked p), all_moves-Named (mounted p) es)

  -- So the forms have at most one write in flight, and are busy exactly as long.
  pub forms-Single : (p : Provider) (es : List Event) → Single (run base (mounted p) es).dashboard
  forms-Single p es =
      subst Single (sym (forms_refine p es).0) (run-Single p (all_moves (mounted p) es))
