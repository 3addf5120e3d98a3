-- ===== src/Admin/CandidateForm/Crop.antt =====
-- What the candidate form submits, and the cropping of its image.
use voting_app.Prelude.{
  All, ◌≡◌, Bool-cases, inl, inr, arith, ◌&&◌, none, Text, List, ℕ, is_empty, true, ◌∷◌, false,
  is_some, some, [], not,
}
use voting_app.Admin.CandidateForm.{
  Form, Event, step, run, adding_form, handle, enabled, crop_save, crop_cancel, crop_done,
  submits_form, settled, edit_name, edit_description, reads, crop_complete, clear, parent_loads,
  handle_submit, image_read, handle_crop_save, cropped, handle_crop_cancel, submit_settled,
  clear_image,
}
use voting_app.Admin.Dashboard.Handlers.{FormValues}
use voting_app.Admin.Trim.{Starts, trim-bare, Ends}

-- A name that is not empty, with no white space at either end.
abbrev pub IsNamed : FormValues → Type 0
IsNamed v = (is_empty v.name ≡ false) × Starts v.name × Ends v.name

handle-IsNamed :
    (f : Form) (e : Event)
    → enabled f e ≡ true
    → All IsNamed f.submitted
    → All IsNamed (handle f e).submitted
unfolding handle enabled handle_submit image_read handle_crop_save cropped handle_crop_cancel
    submit_settled clear_image
handle-IsNamed f (parent_loads b) a h = h
handle-IsNamed f (edit_name t) a h = h
handle-IsNamed f (edit_description t) a h = h
handle-IsNamed f (reads src) a h = h
handle-IsNamed f (crop_complete c) a h = h
handle-IsNamed f crop_save a h =
    elim (Bool-cases (is_some f.crop_image_src && is_some f.cropped_area)) [
      | inl e ↦ rw e h
      | inr e ↦ rw e h
    ]
handle-IsNamed f crop_cancel a h = h
handle-IsNamed f clear a h = h
handle-IsNamed f submits_form a h = ((ground arith, (trim-bare f.name).0, (trim-bare f.name).1), h)
handle-IsNamed f (crop_done none) a h = h
handle-IsNamed f (crop_done (some r)) a h = h
handle-IsNamed f (settled success) a h = elim (Bool-cases (success && not f.is_edit)) [
  | inl e ↦ rw e h
  | inr e ↦ rw e h
]

step-IsNamed : (f : Form) (e : Event) → All IsNamed f.submitted → All IsNamed (step f e).submitted
unfolding step
step-IsNamed f e h = elim (Bool-cases (enabled f e)) [
  | inl a ↦ rw a (handle-IsNamed f e a h)
  | inr a ↦ rw a h
]

run-IsNamed :
    (f : Form) (es : List Event) → All IsNamed f.submitted → All IsNamed (run f es).submitted
unfolding run
run-IsNamed f [] h = h
run-IsNamed f (e ∷ es) h = run-IsNamed (step f e) es (step-IsNamed f e h)

none-IsNamed : All IsNamed adding_form.submitted
unfolding adding_form
none-IsNamed = tt

-- Whatever is done to the form to add a candidate, each candidate that it submits has a name that is
-- not empty, with the white space around it removed.
pub submitted-IsNamed : (es : List Event) → All IsNamed (run adding_form es).submitted
submitted-IsNamed es = run-IsNamed adding_form es none-IsNamed

-- What the code does when a crop is cancelled while its image is made: the image is used all the
-- same, as the file to submit and in the preview.
pub late_crop_applied :
    (f : Form) (file : ℕ) (url : Text)
    → f.is_cropping ≡ true
    → is_some f.crop_image_src ≡ true
    → is_some f.cropped_area ≡ true
    → let g = run f (crop_save ∷ crop_cancel ∷ crop_done (some (file, url)) ∷ []) in
      (g.image_file ≡ some file) × (g.preview ≡ some url)
unfolding run step handle enabled handle_crop_save cropped handle_crop_cancel
late_crop_applied f file url c s a = ground arith
