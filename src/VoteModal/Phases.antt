-- ===== src/VoteModal/Phases.antt =====
-- The voter's session as a state machine with six phases, independent of the modal's record: which
-- phase can follow which.
use voting_app.Prelude.{
  arith, List, ℕ, Bool, ◌<◌, any, true, ◌≡◌, false, ◌∷◌, ◌==◌, if◌then◌else◌, [], ltb,
}
use voting_app.Storage.{Storage}
use voting_app.Toasts.{Provider}
use voting_app.Types.{Candidate}
use voting_app.VoteModal.{Step, all_filled, email_step, otp_step, done_step}
use voting_app.VoteModal.Flight.{Flight, step-Flight, run-Flight, start-Flight}
use voting_app.VoteModal.Session.{
  Event, edit_email, captcha_success, captcha_lost, submit, otp_change, otp_key_down, otp_paste,
  resend, fingerprint_done, request_answer, verify_answer, step, handle, render, Session, run,
  start,
}

-- `abandoned`: the voter went back to the form while a code was being verified.
pub data Phase : Type 0 where
  idle asking coding verifying abandoned finished : Phase

abbrev number_of : Phase → ℕ
number_of idle = 0
number_of asking = 1
number_of coding = 2
number_of verifying = 3
number_of abandoned = 4
number_of finished = 5

-- What can come after a phase, in one event.
abbrev pub next : Phase → List Phase
next idle = idle ∷ asking ∷ []
next asking = asking ∷ idle ∷ coding ∷ finished ∷ []
next coding = coding ∷ verifying ∷ idle ∷ []
next verifying = verifying ∷ coding ∷ finished ∷ abandoned ∷ []
next abandoned = abandoned ∷ idle ∷ finished ∷ []
next finished = finished ∷ []

abbrev pub follows : Phase → Phase → Bool
follows p q = any (λ r. number_of r == number_of q) (next p)

abbrev phase_of : Step → ℕ → ℕ → Phase
phase_of email_step requests verifications =
    if ltb 0 requests then asking else if ltb 0 verifications then abandoned else idle
phase_of otp_step requests verifications = if ltb 0 verifications then verifying else coding
phase_of done_step requests verifications = finished

unfoldable pub phase : Session → Phase
phase s = phase_of s.modal.step s.otp_requests s.verifications

abbrev pub is_email : Step → Bool
is_email email_step = true
is_email otp_step = false
is_email done_step = false

-- A code is asked for on the first step only, and the cells are empty there.
pub record Staged (s : Session) : Type 0 where
  pub asked : 0 < s.otp_requests → is_email s.modal.step ≡ true
  pub unfilled : is_email s.modal.step ≡ true → all_filled s.modal ≡ false

step-Staged : (s : Session) (e : Event) → Flight s → Staged s → Staged (step s e)
unfolding step handle render
step-Staged s (edit_email v) f h = ground arith
step-Staged s (captcha_success t) f h = ground arith
step-Staged s captcha_lost f h = ground arith
step-Staged s submit f h = ground arith
step-Staged s (otp_change i v) f h = ground arith
step-Staged s (otp_key_down i b) f h = ground arith
step-Staged s (otp_paste t) f h = ground arith
step-Staged s resend f h = ground arith
step-Staged s (fingerprint_done v g) f h = ground arith
step-Staged s (request_answer r) f h = ground arith
step-Staged s (verify_answer r id) f h = ground arith

step_follows :
    (s : Session) (e : Event) → Flight s → Staged s → follows (phase s) (phase (step s e)) ≡ true
unfolding step handle render phase
step_follows s (edit_email v) f h = ground arith
step_follows s (captcha_success t) f h = ground arith
step_follows s captcha_lost f h = ground arith
step_follows s submit f h = ground arith
step_follows s (otp_change i v) f h = ground arith
step_follows s (otp_key_down i b) f h = ground arith
step_follows s (otp_paste t) f h = ground arith
step_follows s resend f h = ground arith
step_follows s (fingerprint_done v g) f h = ground arith
step_follows s (request_answer r) f h = ground arith
step_follows s (verify_answer r id) f h = ground arith

pub run-Staged : (s : Session) (es : List Event) → Flight s → Staged s → Staged (run s es)
unfolding run
run-Staged s [] f h = h
run-Staged s (e ∷ es) f h = run-Staged (step s e) es (step-Flight s e f) (step-Staged s e f h)

pub start-Staged : (c : Candidate) (g : Storage) (p : Provider) → Staged (start c g p)
unfolding start
start-Staged c g p = ground arith

-- The session is the machine: whatever happened before, each event leaves the phase or takes it to
-- one that the machine lets follow it.
pub phases_follow :
    (c : Candidate) (g : Storage) (p : Provider) (es : List Event) (e : Event)
    → follows (phase (run (start c g p) es)) (phase (step (run (start c g p) es) e)) ≡ true
phases_follow c g p es e =
    step_follows (run (start c g p) es) e (run-Flight (start c g p) es (start-Flight c g p))
      (run-Staged (start c g p) es (start-Flight c g p) (start-Staged c g p))
