-- ===== src/VoteModal/Failures.antt =====
-- What the modal makes of an answer that is an error.
use voting_app.Prelude.{
  ◌<◌, ◌≡◌, true, some, false, arith, none, Bool, List, refl, String, ℕ, if◌then◌else◌,
}
use voting_app.Api.{Failure, failed, has_status, message_of}
use voting_app.Storage.{Storage}
use voting_app.Toasts.{Provider}
use voting_app.Types.{Candidate}
use voting_app.VoteModal.{done_step, empty_otp, already_voted, store_vote}
use voting_app.VoteModal.Flight.{start-Flight}
use voting_app.VoteModal.Phases.{is_email, run-Staged, start-Staged}
use voting_app.VoteModal.Session.{
  Session, Event, request_answer, verify_answer, step, run, start, handle, render,
}

-- After a 409 the last screen warns, and the storage holds the candidate.
abbrev pub Conflicted : Session → Session → Type 0
Conflicted s g =
    (g.modal.step ≡ done_step)
    × (g.modal.is_already_voted ≡ true)
    × (g.modal.done_message ≡ already_voted)
    × (g.storage ≡ store_vote s.modal.candidate.id s.storage)

-- The modal shows the message and is not busy, on the step where it was; no request is sent, no
-- toast is shown, and the storage is as before.
abbrev pub Reported : String → Session → Session → Type 0
Reported message s g =
    (g.modal.error ≡ some message)
    × (g.modal.loading ≡ false)
    × (g.modal.step ≡ s.modal.step)
    × (g.sent ≡ s.sent)
    × (g.provider ≡ s.provider)
    × (g.storage ≡ s.storage)

request_conflict :
    (s : Session) (f : Failure)
    → 0 < s.otp_requests
    → has_status 409 f ≡ true
    → Conflicted s (step s (request_answer (failed f)))
unfolding step handle render
request_conflict s f a c = ground arith

request_failure :
    (s : Session) (f : Failure)
    → 0 < s.otp_requests
    → is_email s.modal.step ≡ true
    → has_status 409 f ≡ false
    → Reported
        (message_of "Failed to send OTP. Please try again." f)
        s
        (step s (request_answer (failed f)))
      × ((step s (request_answer (failed f))).modal.captcha_token ≡ none)
unfolding step handle render
request_failure s f a e c = ground arith

verify_conflict :
    (s : Session) (f : Failure) (id : ℕ)
    → 0 < s.verifications
    → has_status 409 f ≡ true
    → Conflicted s (step s (verify_answer (failed f) id))
unfolding step handle render
verify_conflict s f id a c = ground arith

abbrev pub verify_message : Failure → String
verify_message f =
    if has_status 422 f
    then "Invalid or expired OTP. Please request a new code."
    else message_of "Verification failed." f

verify_failure :
    (s : Session) (f : Failure) (id : ℕ)
    → 0 < s.verifications
    → has_status 409 f ≡ false
    → Reported (verify_message f) s (step s (verify_answer (failed f) id))
      × ((step s (verify_answer (failed f) id)).modal.otp ≡ empty_otp)
unfolding step handle render
verify_failure s f id a c = ground arith

-- Either of the two, by whether the status is 409.
abbrev pub Explained : Bool → String → Session → Session → Type 0
Explained true message s g = Conflicted s g
Explained false message s g = Reported message s g

Explained-request :
    (b : Bool) (s : Session) (f : Failure)
    → has_status 409 f ≡ b
    → 0 < s.otp_requests
    → is_email s.modal.step ≡ true
    → Explained b
        (message_of "Failed to send OTP. Please try again." f)
        s
        (step s (request_answer (failed f)))
Explained-request true s f b a e = request_conflict s f a b
Explained-request false s f b a e = (request_failure s f a e b).0

Explained-verify :
    (b : Bool) (s : Session) (f : Failure) (id : ℕ)
    → has_status 409 f ≡ b
    → 0 < s.verifications
    → Explained b (verify_message f) s (step s (verify_answer (failed f) id))
Explained-verify true s f id b a = verify_conflict s f id a b
Explained-verify false s f id b a = (verify_failure s f id a b).0

-- However a request for a code fails, the voter is told: a 409 leads to the last screen with its
-- warning and stores the candidate; after any other failure the form shows the server's message, or
-- the fallback without one, is not busy, and nothing is sent or stored.
pub request_failure-Explained :
    (c : Candidate) (g : Storage) (p : Provider) (es : List Event) (f : Failure)
    → 0 < (run (start c g p) es).otp_requests
    → Explained
        (has_status 409 f)
        (message_of "Failed to send OTP. Please try again." f)
        (run (start c g p) es)
        (step (run (start c g p) es) (request_answer (failed f)))
request_failure-Explained c g p es f a =
    Explained-request (has_status 409 f) (run (start c g p) es) f refl a
      ((run-Staged (start c g p) es (start-Flight c g p) (start-Staged c g p)).asked a)

-- However a verification fails, the voter is told: a 409 leads to the last screen with its warning
-- and stores the candidate; after any other failure the step stays, the message is the one for a 422,
-- the server's, or the fallback without one, the modal is not busy, and nothing is sent or stored.
pub verify_failure-Explained :
    (c : Candidate) (g : Storage) (p : Provider) (es : List Event) (f : Failure) (id : ℕ)
    → 0 < (run (start c g p) es).verifications
    → Explained
        (has_status 409 f)
        (verify_message f)
        (run (start c g p) es)
        (step (run (start c g p) es) (verify_answer (failed f) id))
verify_failure-Explained c g p es f id a =
    Explained-verify (has_status 409 f) (run (start c g p) es) f id refl a
