-- ===== src/Admin/CandidateForm/Tests.antt =====
-- Runs of the candidate form at concrete events, and the theorems at them.
use voting_app.Prelude.{◌≡◌, refl, ◌∷◌, List, some, [], true}
use voting_app.Admin.CandidateForm.{
  Event, Form, step, run, adding_form, handle, enabled, edit_name, reads, crop_complete, crop_save,
  crop_cancel, crop_done, submits_form, settled, handle_submit, image_read, handle_crop_save,
  cropped, submit_settled,
}
use voting_app.Admin.CandidateForm.Crop.{late_crop_applied}
use voting_app.Admin.Trim.{trim}
use voting_app.Api.{codes}

-- A submission without a name, one while an image is cropped, and one that succeeds.
abbrev filling : List Event
filling =
    edit_name (codes "  ")
    ∷ submits_form
    ∷ edit_name (codes " Eve ")
    ∷ reads (some (codes "data:"))
    ∷ crop_complete 1
    ∷ submits_form
    ∷ crop_save
    ∷ crop_done (some (7, codes "blob:"))
    ∷ submits_form
    ∷ settled true
    ∷ []

filling_test :
    (run adding_form filling).submitted
    ≡ record { name = codes "Eve"; description = []; image_file = some 7 } ∷ []
unfolding run step handle enabled adding_form handle_submit image_read handle_crop_save cropped
    submit_settled trim
filling_test = refl

cleared_test : (run adding_form filling).name ≡ []
unfolding run step handle enabled adding_form handle_submit image_read handle_crop_save cropped
    submit_settled trim
cleared_test = refl

abbrev cropping : Form
cropping = run adding_form (reads (some (codes "data:")) ∷ crop_complete 1 ∷ [])

late_crop_applied_example :
    let g = run cropping (crop_save ∷ crop_cancel ∷ crop_done (some (7, codes "blob:")) ∷ []) in
    (g.image_file ≡ some 7) × (g.preview ≡ some (codes "blob:"))
unfolding run step handle enabled adding_form image_read
late_crop_applied_example = late_crop_applied cropping 7 (codes "blob:") refl refl refl
