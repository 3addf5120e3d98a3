-- ===== src/Admin/CandidateForm/Image.antt =====
-- FrontEnd/src/utils/cropImage.ts, and what the form makes of its result. The browser's part is a
-- parameter: whether the image loads, whether there is a 2d context, and the encoder `toBlob` of the
-- canvas, which may give no blob.
use voting_app.Prelude.{
  String, ◌<◌, ◌≡◌, arith, ℕ, Bool, Option, some, if◌then◌else◌, Text, not, none, ◌&&◌, ◌-◌, false,
}
use voting_app.Admin.CandidateForm.{Form, crop_done, step, handle, cropped, enabled}

-- The fields of react-easy-crop's `Area` that the code reads.
pub record Area : Type 0 where
  pub x : ℕ
  pub y : ℕ
  pub width : ℕ
  pub height : ℕ

-- A canvas, and the `drawImage` that was called on it, from a part of the image to a part of it.
pub record Canvas : Type 0 where
  pub width : ℕ
  pub height : ℕ
  pub source : Area
  pub target : Area

pub data CropError : Type 0 where
  not_loaded no_context canvas_empty : CropError

pub record File : Type 0 where
  pub blob : ℕ
  pub name : String
  pub type : String
  pub last_modified : ℕ

pub data CropResult : Type 0 where
  resolved : File → CropResult
  rejected : CropError → CropResult

unfoldable pub canvas_of : Area → Canvas
canvas_of crop = record {
  width = crop.width;
  height = crop.height;
  source = crop;
  target = record { x = 0; y = 0; width = crop.width; height = crop.height };
}

abbrev file_of : ℕ → Option ℕ → CropResult
file_of now none = rejected canvas_empty
file_of now (some b) =
    resolved (record { blob = b; name = "cropped.jpg"; type = "image/jpeg"; last_modified = now })

-- What `handleCropSave` gets: the file, as its blob, with the URL that is made for it.
abbrev pub outcome : (ℕ → Text) → CropResult → Option (ℕ × Text)
outcome url (resolved f) = some (f.blob, url f.blob)
outcome url (rejected e) = none

-- The form with the file that was made, if any.
abbrev pub applied : (ℕ → Text) → Form → Option ℕ → Form
applied url f none = record f { crops = f.crops - 1 }
applied url f (some b) = record f {
  crops = f.crops - 1;
  image_file = some b;
  preview = some (url b);
  is_cropping = false;
  crop_image_src = none;
}

module _ (loads context : Bool) (to_blob : Canvas → Option ℕ) (now : ℕ) where
  unfoldable pub get_cropped_img : Area → CropResult
  get_cropped_img crop =
      if not loads
      then rejected not_loaded
      else if not context
      then rejected no_context
      else file_of now (to_blob (canvas_of crop))

  -- The blob, where each of the three succeeds.
  abbrev pub made : Area → Option ℕ
  made crop = if loads && context then to_blob (canvas_of crop) else none

  -- The error paths of a crop: the form gets the file that the encoder makes of a canvas of the size of
  -- the crop, exactly if the image loads, there is a context and the encoder gives a blob; and if not,
  -- whichever of the three fails, nothing of the form changes but the number of crops in flight.
  pub crop_outcome :
      (url : ℕ → Text) (crop : Area) (f : Form)
      → 0 < f.crops
      → step f (crop_done (outcome url (get_cropped_img crop))) ≡ applied url f (made crop)
  unfolding get_cropped_img step handle cropped enabled
  crop_outcome url crop f h = ground arith
