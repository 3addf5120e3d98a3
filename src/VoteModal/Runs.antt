-- ===== src/VoteModal/Runs.antt =====
-- The theorems on phases, cells and failures at the sessions of Tests.
use mathlib.Core.List.{flatten}
use voting_app.Prelude.{◌≡◌, arith, List, true, refl, ◌∷◌, []}
use voting_app.Api.{failed, network, message_of, has_status, codes}
use voting_app.Toasts.{mounted}
use voting_app.VoteModal.Cells.{HasCells, cells-HasCells}
use voting_app.VoteModal.Failures.{
  Explained, request_failure-Explained, verify_failure-Explained, verify_message,
}
use voting_app.VoteModal.Phases.{follows, phase, phases_follow, verifying, abandoned}
use voting_app.VoteModal.Session.{
  run, step, Event, resend, submit, start, verify_answer, request_answer, edit_email,
  captcha_success,
}
use voting_app.VoteModal.Tests.{ann, device, first, wrong, refusal}

session : Unit {0}
unfolding run start step flatten
session = tt

phase_test :
    (phase (run first wrong) ≡ verifying) × (phase (step (run first wrong) resend) ≡ abandoned)
unfolding session phase
phase_test = (refl, refl)

phases_follow_example :
    follows (phase (run first wrong)) (phase (step (run first wrong) resend)) ≡ true
phases_follow_example = phases_follow ann device mounted wrong resend

cells-HasCells_example : HasCells (run first wrong).modal.otp
cells-HasCells_example = cells-HasCells ann device mounted wrong

abbrev asking_once : List Event
asking_once = edit_email (codes "a@b.c") ∷ captcha_success (codes "t") ∷ submit ∷ []

request_failure-Explained_example :
    Explained
      (has_status 409 network)
      (message_of "Failed to send OTP. Please try again." network)
      (run first asking_once)
      (step (run first asking_once) (request_answer (failed network)))
unfolding session
request_failure-Explained_example =
    request_failure-Explained ann device mounted asking_once network (omega arith)

verify_failure-Explained_example :
    Explained
      (has_status 409 refusal)
      (verify_message refusal)
      (run first wrong)
      (step (run first wrong) (verify_answer (failed refusal) 1))
unfolding session
verify_failure-Explained_example =
    verify_failure-Explained ann device mounted wrong refusal 1 (omega arith)
