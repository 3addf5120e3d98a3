-- ===== src/VoteModal/Session.antt =====
-- A mounted modal with what it shares: the storage, the toasts, and the requests in flight. Each
-- event is followed by the effect of FrontEnd/src/components/VoteModal.tsx, lines 49 to 56, also
-- where React skips it because none of its dependencies changed (Flight is about these runs). The
-- `candidate` of the modal is a prop: that it may change under a mounted modal is in Home.Page, which
-- runs a handler's continuation with the candidate `asker` of the handler.
use voting_app.Prelude.{
  ◌-◌, ℕ, ◌+◌, Option, none, some, List, [], ◌∷◌, Text, Bool, true, false, not, ◌&&◌, ◌||◌,
  if◌then◌else◌, ltb, is_empty,
}
use voting_app.Api.{Request, Response}
use voting_app.Fingerprint
use voting_app.Storage.{Storage, truthy}
use voting_app.Toasts.{Provider, toast_success}
use voting_app.Types.{Candidate}
use voting_app.VoteModal.{
  Step, email_step, otp_step, done_step, Modal, opened, handle_request_otp, request_otp_answered,
  verify_answered, handle_otp_change, handle_otp_key_down, handle_otp_paste, go_back_to_email,
  auto_submit, is_otp_step,
}

pub record Session : Type 0 where
  pub modal : Modal
  pub storage : Storage
  pub provider : Provider
  pub otp_requests : ℕ  -- requests for a code in flight
  pub verifications : ℕ  -- verifications in flight
  pub sent : List Request  -- all requests sent, the last one first
  pub asker : Candidate  -- the candidate of the render whose handler sent the last request

pub data Event : Type 0 where
  edit_email : Text → Event
  captcha_success : Text → Event
  captcha_lost : Event  -- `onExpire` and `onError`
  submit : Event
  otp_change : ℕ → Text → Event
  otp_key_down : ℕ → Bool → Event
  otp_paste : Text → Event
  resend : Event
  fingerprint_done : Option Text → Text → Event
  request_answer : Response (Unit {0}) → Event
  verify_answer : Response (Unit {0}) → ℕ → Event  -- with the identifier of the toast

abbrev pub is_email_step : Step → Bool
is_email_step email_step = true
is_email_step otp_step = false
is_email_step done_step = false

-- The submit button's `disabled`.
abbrev pub submit_disabled : Modal → Bool
submit_disabled m =
    m.loading || (not (truthy m.captcha_token) || (is_empty m.email || not (truthy m.fingerprint)))

-- Whether the view lets the event happen: its element is shown and not disabled. An answer needs a
-- request in flight.
abbrev pub enabled : Session → Event → Bool
enabled s (edit_email v) = is_email_step s.modal.step && not s.modal.loading
enabled s (captcha_success t) = is_email_step s.modal.step
enabled s captcha_lost = is_email_step s.modal.step
enabled s submit = is_email_step s.modal.step && not (submit_disabled s.modal)
enabled s (otp_change i v) = is_otp_step s.modal.step && (not s.modal.loading && ltb i 6)
enabled s (otp_key_down i b) = is_otp_step s.modal.step && (not s.modal.loading && ltb i 6)
enabled s (otp_paste t) = is_otp_step s.modal.step
enabled s resend = is_otp_step s.modal.step
enabled s (fingerprint_done v f) = true
enabled s (request_answer r) = ltb 0 s.otp_requests
enabled s (verify_answer r id) = ltb 0 s.verifications

abbrev pub with_request : Session → Modal × Option Request → Session
with_request s (m, none) = record s { modal = m }
with_request s (m, some r) = record s {
  modal = m;
  otp_requests = s.otp_requests + 1;
  sent = r ∷ s.sent;
  asker = s.modal.candidate;
}

abbrev pub with_verification : Session → Modal × Option Request → Session
with_verification s (m, none) = record s { modal = m }
with_verification s (m, some r) = record s {
  modal = m;
  verifications = s.verifications + 1;
  sent = r ∷ s.sent;
  asker = s.modal.candidate;
}

abbrev announce : Bool → ℕ → Provider → Provider
announce true id p = toast_success id "Vote recorded successfully!" none p
announce false id p = p

-- The handler that the event calls.
unfoldable pub handle : Session → Event → Session
unfolding handle_request_otp request_otp_answered verify_answered handle_otp_change
    handle_otp_key_down handle_otp_paste go_back_to_email Fingerprint.effect
handle s (edit_email v) = record s { modal = record (s.modal) { email = v } }
handle s (captcha_success t) = record s { modal = record (s.modal) { captcha_token = some t } }
handle s captcha_lost = record s { modal = record (s.modal) { captcha_token = none } }
handle s submit = with_request s (handle_request_otp s.modal)
handle s (otp_change i v) = record s { modal = handle_otp_change i v s.modal }
handle s (otp_key_down i b) = record s { modal = handle_otp_key_down i b s.modal }
handle s (otp_paste t) = record s { modal = handle_otp_paste t s.modal }
handle s resend = record s { modal = go_back_to_email s.modal }
handle s (fingerprint_done v f) =
    let h =
      Fingerprint.effect v f (record { fingerprint = s.modal.fingerprint; storage = s.storage }) in
    record s { modal = record (s.modal) { fingerprint = h.fingerprint }; storage = h.storage }
handle s (request_answer r) =
    let (m, storage) = request_otp_answered r s.modal s.storage in
    record s { modal = m; storage = storage; otp_requests = s.otp_requests - 1 }
handle s (verify_answer r id) =
    let (m, storage, toasted) = verify_answered r s.modal s.storage in
    record s {
      modal = m;
      storage = storage;
      verifications = s.verifications - 1;
      provider = announce toasted id s.provider;
    }

-- The effect after the render.
unfoldable pub render : Session → Session
unfolding auto_submit
render s = with_verification s (auto_submit s.modal)

unfoldable pub step : Session → Event → Session
unfolding handle render
step s e = if enabled s e then render (handle s e) else s

unfoldable pub run : Session → List Event → Session
run s [] = s
run s (e ∷ es) = run (step s e) es

unfoldable pub start : Candidate → Storage → Provider → Session
unfolding opened
start candidate storage provider = record {
  modal = opened candidate storage.voter_fp;
  storage = storage;
  provider = provider;
  otp_requests = 0;
  verifications = 0;
  sent = [];
  asker = candidate;
}
