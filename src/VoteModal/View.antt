-- ===== src/VoteModal/View.antt =====
-- What FrontEnd/src/components/VoteModal.tsx shows (lines 162 to 355), without styles and icons.
use voting_app.Prelude.{
  ℕ, ◌≡◌, String, Text, Option, Bool, List, not, false, some, ◌<◌, arith, true, none, if◌then◌else◌,
}
use voting_app.Decimal.{show}
use voting_app.ImageUrl.{get_image_url}
use voting_app.Storage.{Storage}
use voting_app.Toasts.{Provider}
use voting_app.Types.{Candidate}
use voting_app.VoteModal.{Modal, Step, email_step, otp_step, done_step, already_voted, recorded}
use voting_app.VoteModal.Done.{Outcome, Verdict, verdict, open_yet, done_stores}
use voting_app.VoteModal.Session.{
  run, start, Event, Session, submit_disabled, enabled, submit, otp_change,
}

pub data Title : Type 0 where
  already_voted_title vote_recorded_title : Title
  vote_for : String → Title

-- The body under the candidate's preview.
pub data Body : Type 0 where
  email_form :
      (email : Text) (input_disabled : Bool) (error : Option String) (submit_disabled : Bool) → Body
  otp_form :
      (sent_to : Text) (cells : List Text) (cells_disabled : Bool) (spinner : Bool)
      (error : Option String)
      → Body
  done_screen : (warning : Bool) (message : String) → Body

pub record View : Type 0 where
  pub title : Title
  pub preview : Option (Option Text × String)  -- image and name
  pub body : Body

abbrev title_of : Step → Bool → String → Title
title_of done_step true name = already_voted_title
title_of done_step false name = vote_recorded_title
title_of email_step v name = vote_for name
title_of otp_step v name = vote_for name

abbrev preview_of : Text → Step → Candidate → Option (Option Text × String)
preview_of base email_step c = some (get_image_url base c.image_path, c.name)
preview_of base otp_step c = some (get_image_url base c.image_path, c.name)
preview_of base done_step c = none

abbrev body_of : Step → Modal → Body
body_of email_step m = email_form m.email m.loading m.error (submit_disabled m)
body_of otp_step m = otp_form m.email m.otp m.loading m.loading m.error
body_of done_step m = done_screen m.is_already_voted m.done_message

unfoldable pub view : Text → Modal → View
view base m = record {
  title = title_of m.step m.is_already_voted m.candidate.name;
  preview = preview_of base m.step m.candidate;
  body = body_of m.step m;
}

-- The view offers a way to change something: an input or a button that is not disabled.
abbrev pub offers_submit : Body → Bool
offers_submit (email_form e d r s) = not s
offers_submit (otp_form e c d s r) = false
offers_submit (done_screen w m) = false

abbrev pub offers_cells : Body → Bool
offers_cells (email_form e d r s) = false
offers_cells (otp_form e c d s r) = not d
offers_cells (done_screen w m) = false

-- The events that a session lets happen are those that the view offers: the form can be submitted,
-- and the cells can be edited (at the indices of the cells), exactly if the view has them enabled.
pub enabled_iff_offered :
    (base : Text) (s : Session) (i : ℕ) (v : Text)
    → i < 6
    → (enabled s submit ≡ offers_submit (view base s.modal).body)
      × (enabled s (otp_change i v) ≡ offers_cells (view base s.modal).body)
unfolding view
enabled_iff_offered base s i v h = ground arith

consistent :
    (base : Text) (c : Candidate) (before : Option Text) (v : Verdict) (s : Session) (w : Bool)
    (msg : String)
    → Outcome c before v s
    → (view base s.modal).body ≡ done_screen w msg
    → ((view base s.modal).title ≡ (if w then already_voted_title else vote_recorded_title))
      × (msg ≡ (if w then already_voted else recorded))
      × (s.storage.voted_candidate_id ≡ some (show c.id))
unfolding view
consistent base c before v s w msg o e = ground arith

-- After any events, if the last screen is shown, its title and its message both say that the vote
-- was cast before if it has its warning sign, and that it is recorded if not; and the storage holds
-- the candidate's id.
pub done_screen_consistent :
    (base : Text) (c : Candidate) (g : Storage) (p : Provider) (es : List Event) (w : Bool)
    (msg : String)
    → (view base (run (start c g p) es).modal).body ≡ done_screen w msg
    → ((view base (run (start c g p) es).modal).title
        ≡ (if w then already_voted_title else vote_recorded_title))
      × (msg ≡ (if w then already_voted else recorded))
      × ((run (start c g p) es).storage.voted_candidate_id ≡ some (show c.id))
done_screen_consistent base c g p es w msg e =
    consistent base c g.voted_candidate_id (verdict open_yet (start c g p) es)
      (run (start c g p) es) w msg (done_stores c g p es) e
