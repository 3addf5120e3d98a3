-- ===== src/VoteModal.antt =====
-- FrontEnd/src/components/VoteModal.tsx: the state of one mounted modal and its handlers. An `async`
-- handler is two functions, up to its `await` and from the answer on. Focus is the cell that
-- `otpRefs.current[i]?.focus()` was last called for; `resets` counts the calls of
-- `turnstileRef.current?.reset()`.
pub mod Session
pub mod View
pub mod Cells
pub mod Flight
pub mod Done
pub mod Requests
pub mod Captcha
pub mod Retry
pub mod Phases
pub mod Failures
mod Tests
mod Runs
use mathlib.Core.List.{flatten}
use voting_app.Prelude.{
  ℕ, suc, ◌+◌, ◌-◌, ◌==◌, ◌++◌, Option, none, some, List, [], ◌∷◌, Text, String, Bool, true, false,
  not, ◌&&◌, if◌then◌else◌, length, get_elem?, set, take, keep, all, is_empty, map, ltb,
}
use voting_app.Api.{
  Request, Response, ok, failed, Failure, has_status, message_of, request_otp, verify,
}
use voting_app.Decimal.{is_digit, show}
use voting_app.Storage.{Storage, truthy}
use voting_app.Types.{Candidate}

pub data Step : Type 0 where
  email_step otp_step done_step : Step

pub record Modal : Type 0 where
  pub candidate : Candidate
  pub fingerprint : Option Text
  pub step : Step
  pub email : Text
  pub captcha_token : Option Text
  pub otp : List Text
  pub loading : Bool
  pub error : Option String
  pub done_message : String
  pub is_already_voted : Bool
  pub submitted : Bool
  pub focus : Option ℕ
  pub resets : ℕ

abbrev pub empty_otp : List Text
empty_otp = [] ∷ [] ∷ [] ∷ [] ∷ [] ∷ [] ∷ []

unfoldable pub opened : Candidate → Option Text → Modal
opened candidate fingerprint = record {
  candidate = candidate;
  fingerprint = fingerprint;
  step = email_step;
  email = [];
  captcha_token = none;
  otp = empty_otp;
  loading = false;
  error = none;
  done_message = "";
  is_already_voted = false;
  submitted = false;
  focus = none;
  resets = 0;
}

-- The text behind a nullable string that is truthy.
abbrev pub text_of : Option Text → Text
text_of none = []
text_of (some s) = s

-- `handleRequestOtp` up to its `await`: the request that it sends, if any.
unfoldable pub handle_request_otp : Modal → Modal × Option Request
handle_request_otp m =
    if not (truthy m.captcha_token)
    then (record m { error = some "Please complete the captcha." }, none)
    else if not (truthy m.fingerprint)
    then (record m { error = some "Fingerprint not ready. Please wait a moment." }, none)
    else (
      record m { loading = true; error = none },
      some (request_otp m.email (text_of m.fingerprint) (text_of m.captcha_token) m.candidate.id),
    )

abbrev pub already_voted : String
already_voted = "You have already cast your vote in this election."

-- `localStorage.setItem('voted_candidate_id', String(candidate.id))`.
abbrev pub store_vote : ℕ → Storage → Storage
store_vote id s = record s { voted_candidate_id = some (show id) }

-- The states that `catch` and `finally` leave after a 409, in either handler.
abbrev pub show_already_voted : Modal → Modal
show_already_voted m = record m {
  is_already_voted = true;
  done_message = already_voted;
  step = done_step;
  loading = false;
}

-- `handleRequestOtp` from the answer on.
unfoldable pub request_otp_answered : Response (Unit {0}) → Modal → Storage → Modal × Storage
request_otp_answered (ok _) m s = (record m { step = otp_step; focus = some 0; loading = false }, s)
request_otp_answered (failed f) m s =
    if has_status 409 f then (show_already_voted m, store_vote m.candidate.id s) else (
      record m {
        error = some (message_of "Failed to send OTP. Please try again." f);
        resets = m.resets + 1;
        captcha_token = none;
        loading = false;
      },
      s,
    )

-- `handleVerifyOtp` up to its `await`.
unfoldable pub handle_verify_otp : Modal → Modal × Option Request
handle_verify_otp m =
    let code = flatten m.otp in
    if length code == 6
    then (record m { loading = true; error = none }, some (verify m.email code))
    else (m, none)

abbrev pub recorded : String
recorded = "Your vote has been recorded! Thank you for participating."

-- `handleVerifyOtp` from the answer on; the last component says whether the success toast is shown.
unfoldable pub verify_answered : Response (Unit {0}) → Modal → Storage → Modal × Storage × Bool
verify_answered (ok _) m s = (
  record m { done_message = recorded; step = done_step; loading = false },
  store_vote m.candidate.id s,
  true,
)
verify_answered (failed f) m s =
    if has_status 409 f
    then (show_already_voted m, store_vote m.candidate.id s, false)
    else if has_status 422 f
    then (
      record m {
        error = some "Invalid or expired OTP. Please request a new code.";
        otp = empty_otp;
        focus = some 0;
        loading = false;
      },
      s,
      false,
    )
    else (
      record m {
        error = some (message_of "Verification failed." f);
        otp = empty_otp;
        loading = false;
      },
      s,
      false,
    )

-- `/^\d?$/.test(value)`.
abbrev pub is_cell : Text → Bool
is_cell [] = true
is_cell (c ∷ []) = is_digit c
is_cell (c ∷ d ∷ s) = false

abbrev focus_next : Text → ℕ → Option ℕ → Option ℕ
focus_next [] index focus = focus
focus_next (c ∷ s) index focus = if ltb index 5 then some (index + 1) else focus

-- `next[index] = value`; the view calls it at the indices of the cells only.
unfoldable pub handle_otp_change : ℕ → Text → Modal → Modal
handle_otp_change index value m =
    if is_cell value
    then record m { otp = set m.otp index value; focus = focus_next value index m.focus }
    else m

-- `!otp[index]`.
abbrev cell_empty : Option Text → Bool
cell_empty none = true
cell_empty (some s) = is_empty s

-- `backspace` says that the key is `Backspace`.
unfoldable pub handle_otp_key_down : ℕ → Bool → Modal → Modal
handle_otp_key_down index backspace m =
    if backspace && (cell_empty (get_elem? m.otp index) && ltb 0 index)
    then record m { focus = some (index - 1) }
    else m

-- `paste.split('')`.
abbrev pub split : Text → List Text
split = map (λ c. c ∷ [])

unfoldable pub handle_otp_paste : Text → Modal → Modal
handle_otp_paste pasted m =
    let paste = take 6 (keep is_digit pasted) in
    if length paste == 6 then record m { otp = split paste } else m

unfoldable pub go_back_to_email : Modal → Modal
go_back_to_email m = record m {
  step = email_step;
  otp = empty_otp;
  error = none;
  captcha_token = none;
  resets = m.resets + 1;
}

abbrev pub all_filled : Modal → Bool
all_filled m = all (λ d. not (is_empty d)) m.otp

abbrev pub is_otp_step : Step → Bool
is_otp_step email_step = false
is_otp_step otp_step = true
is_otp_step done_step = false

abbrev pub is_done : Step → Bool
is_done email_step = false
is_done otp_step = false
is_done done_step = true

-- The body of the effect that submits a complete code.
unfoldable pub auto_submit : Modal → Modal × Option Request
unfolding handle_verify_otp
auto_submit m =
    if all_filled m
    then if is_otp_step m.step && (not m.loading && not m.submitted)
      then handle_verify_otp (record m { submitted = true })
      else (m, none)
    else (record m { submitted = false }, none)
