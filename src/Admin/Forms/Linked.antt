-- ===== src/Admin/Forms/Linked.antt =====
-- How the dashboard and its forms stand to each other.
use voting_app.Prelude.{
  Bool, ◌≡◌, arith, ◌+◌, is_some, none, refl, Bool-cases, ◌&&◌, inl, inr, ◌∙◌, sym, ap₂, Option,
  some, Text, List, ◌∷◌, [], true, false,
}
use voting_app.Admin.CandidateForm
use voting_app.Admin.CandidateForm.{
  Form, submit_settled, handle_submit, image_read, handle_crop_save, cropped, handle_crop_cancel,
  clear_image, adding_form,
}
use voting_app.Admin.Dashboard
use voting_app.Admin.Dashboard.{submit_add, submit_edit, delete_target_of}
use voting_app.Admin.Dashboard.Handlers.{
  Dashboard, handle_add, handle_update, handle_delete, candidates_fetched, added, updated, deleted,
  fetch_candidates,
}
use voting_app.Admin.Forms.{
  own, outer, settle_add, on_submit, modal_form, loads_opt, Forms, Event, render, in_edit_form,
  on_page, in_add_form, of_page, in_add, in_edit, step, run, mounted,
}
use voting_app.Api.{or_empty}
use voting_app.Toasts.{Provider}
use voting_app.Types.{Candidate}

abbrev pub Loads : Bool → Option Form → Type 0
Loads b none = Unit
Loads b (some f) = f.loading ≡ b

-- The forms are busy while the page is, the modal has a form exactly while a candidate is edited,
-- and the form that adds waits for as many promises as the page has adds in flight.
pub record Linked (s : Forms) : Type 0 where
  pub add_loads : s.add_form.loading ≡ s.dashboard.form_loading
  pub adds : s.add_form.is_edit ≡ false
  pub waits : s.add_form.submits ≡ s.dashboard.adds + s.dashboard.add_lists
  pub there : is_some s.edit_form ≡ is_some s.dashboard.edit_target
  pub edit_loads : Loads s.dashboard.form_loading s.edit_form

module _ (base : Text) where
  modal_there :
      (c : Option Candidate) (f : Option Form) (b : Bool)
      → is_some (loads_opt b (modal_form base c f)) ≡ is_some c
  modal_there none f b = refl
  modal_there (some c) none b = refl
  modal_there (some c) (some f) b = refl

  modal-Loads : (f : Option Form) (b : Bool) → Loads b (loads_opt b f)
  unfolding CandidateForm.handle
  modal-Loads none b = tt
  modal-Loads (some f) b = refl

  render-Linked :
      (s : Forms)
      → s.add_form.is_edit ≡ false
      → s.add_form.submits ≡ s.dashboard.adds + s.dashboard.add_lists
      → Linked (render base s)
  unfolding render CandidateForm.handle
  render-Linked s a w = record {
    add_loads = refl;
    adds = a;
    waits = w;
    there = modal_there s.dashboard.edit_target s.edit_form s.dashboard.form_loading;
    edit_loads =
        modal-Loads (modal_form base s.dashboard.edit_target s.edit_form) s.dashboard.form_loading;
  }

  page_waits :
      (d : Dashboard) (f : Form) (e : Dashboard.Event)
      → Dashboard.enabled d e ≡ true
      → outer e ≡ true
      → f.is_edit ≡ false
      → f.submits ≡ d.adds + d.add_lists
      → ((settle_add e f).is_edit ≡ false)
        × ((settle_add e f).submits
            ≡ (Dashboard.handle d e).adds + (Dashboard.handle d e).add_lists)
  unfolding Dashboard.handle Dashboard.enabled CandidateForm.step CandidateForm.handle
      CandidateForm.enabled submit_settled delete_target_of handle_add handle_update handle_delete
      candidates_fetched added updated deleted fetch_candidates or_empty
  page_waits d f e a o k w = ground arith

  form_waits :
      (d : Dashboard) (f : Form) (e : CandidateForm.Event)
      → own e ≡ true
      → f.is_edit ≡ false
      → f.submits ≡ d.adds + d.add_lists
      → ((CandidateForm.handle f e).is_edit ≡ false)
        × ((CandidateForm.handle f e).submits
            ≡ (on_submit submit_add e f d).adds + (on_submit submit_add e f d).add_lists)
  unfolding Dashboard.handle CandidateForm.handle handle_submit image_read handle_crop_save cropped
      handle_crop_cancel clear_image handle_add
  form_waits d f e o k w = ground arith

  edit_waits :
      (d : Dashboard) (f : Form) (e : CandidateForm.Event)
      → ((on_submit submit_edit e f d).adds ≡ d.adds)
        × ((on_submit submit_edit e f d).add_lists ≡ d.add_lists)
  unfolding Dashboard.handle handle_update
  edit_waits d f e = ground arith

  page-Linked : (s : Forms) (e : Dashboard.Event) → Linked s → Linked (step base s (of_page e))
  unfolding step
  page-Linked s e h = elim (Bool-cases (outer e && Dashboard.enabled s.dashboard e)) [
    | inl a ↦
        let (k, w) =
          page_waits s.dashboard s.add_form e (ground arith) (ground arith) h.adds h.waits in
        rw a (render-Linked (on_page e s) k w)
    | inr a ↦ rw a h
  ]

  add-Linked : (s : Forms) (e : CandidateForm.Event) → Linked s → Linked (step base s (in_add e))
  unfolding step
  add-Linked s e h = elim (Bool-cases (own e && CandidateForm.enabled s.add_form e)) [
    | inl a ↦
        let (k, w) = form_waits s.dashboard s.add_form e (ground arith) h.adds h.waits in
        rw a (render-Linked (in_add_form e s) k w)
    | inr a ↦ rw a h
  ]

  edit-Linked :
      (e : CandidateForm.Event) (o : Option Form) (s : Forms)
      → Linked s
      → Linked (in_edit_form base e o s)
  edit-Linked e none s h = h
  edit-Linked e (some f) s h = elim (Bool-cases (own e && CandidateForm.enabled f e)) [
    | inl a ↦
        let (k, w) = edit_waits s.dashboard f e in
        rw a (render-Linked _ h.adds (h.waits ∙ sym (ap₂ ◌+◌ k w)))
    | inr a ↦ rw a h
  ]

  pub step-Linked : (s : Forms) (e : Event) → Linked s → Linked (step base s e)
  unfolding step
  step-Linked s (of_page e) h = page-Linked s e h
  step-Linked s (in_add e) h = add-Linked s e h
  step-Linked s (in_edit e) h = edit-Linked e s.edit_form s h

  pub run-Linked : (s : Forms) (es : List Event) → Linked s → Linked (run base s es)
  unfolding run
  run-Linked s [] h = h
  run-Linked s (e ∷ es) h = run-Linked (step base s e) es (step-Linked s e h)

pub mounted-Linked : (p : Provider) → Linked (mounted p)
unfolding mounted Dashboard.mounted adding_form fetch_candidates
mounted-Linked p = record {
  add_loads = refl;
  adds = refl;
  waits = refl;
  there = refl;
  edit_loads = tt;
}
