-- ===== src/Admin/CandidateForm.antt =====
-- FrontEnd/src/components/admin/CandidateForm.tsx: the form's state and its handlers. A file is a
-- number. What the browser's reading of a file and `URL.createObjectURL` return comes with the events,
-- and so does the result of `getCroppedImg`, which Image models. The position and the zoom of the crop
-- are left to the Cropper.
pub mod Crop
pub mod Image
mod Tests
use voting_app.Prelude.{
  ℕ, ◌+◌, ◌-◌, Option, none, some, is_some, List, [], ◌∷◌, Text, Bool, true, false, not, ◌&&◌,
  if◌then◌else◌, is_empty, ltb,
}
use voting_app.Admin.Dashboard.Handlers.{FormValues}
use voting_app.Admin.Trim.{trim}
use voting_app.Api.{codes}
use voting_app.ImageUrl.{get_image_url}
use voting_app.Types.{Candidate}

pub record Form : Type 0 where
  pub is_edit : Bool  -- whether there is an `initial`
  pub loading : Bool  -- the parent's
  pub name : Text
  pub description : Text
  pub image_file : Option ℕ
  pub preview : Option Text
  pub is_cropping : Bool
  pub crop_image_src : Option Text
  pub cropped_area : Option ℕ  -- `croppedAreaPixels`
  pub crops : ℕ  -- calls of `getCroppedImg` in flight
  pub submits : ℕ  -- submissions that the parent has not settled
  pub submitted : List FormValues  -- what was passed to `onSubmit`, the last one first

unfoldable pub image_read : Option Text → Form → Form
image_read src f = record f { crop_image_src = src; is_cropping = true }

-- `handleCropSave` up to its `await`.
unfoldable pub handle_crop_save : Form → Form
handle_crop_save f =
    if is_some f.crop_image_src && is_some f.cropped_area
    then record f { crops = f.crops + 1 }
    else f

-- `handleCropSave` from the file on; `none` is an error, which is only logged.
unfoldable pub cropped : Option (ℕ × Text) → Form → Form
cropped none f = record f { crops = f.crops - 1 }
cropped (some (file, url)) f = record f {
  crops = f.crops - 1;
  image_file = some file;
  preview = some url;
  is_cropping = false;
  crop_image_src = none;
}

unfoldable pub handle_crop_cancel : Form → Form
handle_crop_cancel f = record f { is_cropping = false; crop_image_src = none }

-- What the form hands to its parent.
abbrev pub values : Form → FormValues
values f = record {
  name = trim f.name;
  description = trim f.description;
  image_file = f.image_file;
}

unfoldable pub handle_submit : Form → Form
handle_submit f = record f { submits = f.submits + 1; submitted = values f ∷ f.submitted }

abbrev pub blank : Form → Form
blank f = record f {
  name = [];
  description = [];
  image_file = none;
  preview = none;
  is_cropping = false;
  crop_image_src = none;
}

-- `handleSubmit` once the parent's promise is settled.
unfoldable pub submit_settled : Bool → Form → Form
submit_settled success f =
    let g = record f { submits = f.submits - 1 } in if success && not f.is_edit then blank g else g

unfoldable pub clear_image : Form → Form
clear_image f = record f { image_file = none; preview = none }

pub data Event : Type 0 where
  parent_loads : Bool → Event
  edit_name edit_description : Text → Event
  reads : Option Text → Event
  crop_complete : ℕ → Event
  crop_save crop_cancel clear submits_form : Event
  crop_done : Option (ℕ × Text) → Event
  settled : Bool → Event

-- Whether the form has the event's element, not disabled, or the answer is awaited.
unfoldable pub enabled : Form → Event → Bool
enabled f (parent_loads b) = true
enabled f (edit_name t) = true
enabled f (edit_description t) = true
enabled f (reads src) = true
enabled f (crop_complete a) = f.is_cropping && is_some f.crop_image_src
enabled f crop_save = f.is_cropping && is_some f.crop_image_src
enabled f crop_cancel = f.is_cropping && is_some f.crop_image_src
enabled f clear = is_some f.preview && not (f.is_cropping && is_some f.crop_image_src)
enabled f submits_form = not f.loading && (not (is_empty (trim f.name)) && not f.is_cropping)
enabled f (crop_done r) = ltb 0 f.crops
enabled f (settled success) = ltb 0 f.submits

unfoldable pub handle : Form → Event → Form
unfolding image_read handle_crop_save cropped handle_crop_cancel handle_submit submit_settled
    clear_image
handle f (parent_loads b) = record f { loading = b }
handle f (edit_name t) = record f { name = t }
handle f (edit_description t) = record f { description = t }
handle f (reads src) = image_read src f
handle f (crop_complete a) = record f { cropped_area = some a }
handle f crop_save = handle_crop_save f
handle f crop_cancel = handle_crop_cancel f
handle f clear = clear_image f
handle f submits_form = handle_submit f
handle f (crop_done r) = cropped r f
handle f (settled success) = submit_settled success f

unfoldable pub step : Form → Event → Form
unfolding handle enabled
step f e = if enabled f e then handle f e else f

unfoldable pub run : Form → List Event → Form
run f [] = f
run f (e ∷ es) = run (step f e) es

-- The form to add a candidate, as it is mounted.
unfoldable pub adding_form : Form
adding_form = record {
  is_edit = false;
  loading = false;
  name = [];
  description = [];
  image_file = none;
  preview = none;
  is_cropping = false;
  crop_image_src = none;
  cropped_area = none;
  crops = 0;
  submits = 0;
  submitted = [];
}

-- The form of the modal that edits `c`; `base` is the build's `VITE_API_URL`.
unfoldable pub editing_form : Text → Candidate → Form
unfolding get_image_url adding_form
editing_form base c = record adding_form {
  is_edit = true;
  name = codes c.name;
  description = c.description;
  preview = get_image_url base c.image_path;
}
