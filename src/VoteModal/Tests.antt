-- ===== src/VoteModal/Tests.antt =====
-- Runs of the modal at concrete events, and the theorems at them.
use mathlib.Core.List.{flatten}
use voting_app.Prelude.{◌≡◌, some, none, true, false, [], List, arith, ◌++◌, refl, ◌∷◌}
use voting_app.Api.{http, codes, ok, request_otp, Failure, failed, verify}
use voting_app.Decimal.{show}
use voting_app.Storage.{empty_storage, Storage}
use voting_app.Toasts.{mounted}
use voting_app.Types.{Candidate}
use voting_app.VoteModal.{opened, Modal, handle_otp_paste, empty_otp, otp_step, done_step}
use voting_app.VoteModal.Captcha.{Paid, solved, requests-Paid}
use voting_app.VoteModal.Cells.{HasCells}
use voting_app.VoteModal.Done.{Outcome, verdict, open_yet, done_stores}
use voting_app.VoteModal.Flight.{Flight, single-Flight}
use voting_app.VoteModal.Requests.{AllProper, requests_proper}
use voting_app.VoteModal.Retry.{pasted_digits, type_from, retry_possible, paste-eq-type}
use voting_app.VoteModal.Session.{
  Event, step, run, start, Session, submit, verify_answer, otp_paste, edit_email, resend,
  otp_change, captcha_success, request_answer,
}

session : Unit {0}
unfolding run start step flatten
session = tt

abbrev pub ann : Candidate
ann = record {
  id = 7;
  name = "Ann";
  description = [];
  image_path = codes "/u.png";
  total_votes = 3;
  created_at = "";
}

abbrev pub device : Storage
device = record empty_storage { voter_fp = some (codes "f1") }

abbrev pub first : Session
first = start ann device mounted

abbrev pub ask : List Event
ask =
    edit_email (codes "a@b.c")
    ∷ submit
    ∷ captcha_success (codes "t")
    ∷ submit
    ∷ request_answer (ok tt)
    ∷ []

abbrev pub vote : List Event
vote = ask ++ otp_paste (codes "12 34-56") ∷ verify_answer (ok tt) 1 ∷ []

vote_test :
    ((run first vote).modal.step ≡ done_step)
    × ((run first vote).storage.voted_candidate_id ≡ some (codes "7"))
    × ((run first vote).sent
        ≡ verify (codes "a@b.c") (codes "123456")
          ∷ request_otp (codes "a@b.c") (codes "f1") (codes "t") 7
          ∷ [])
unfolding session show
vote_test = (refl, refl, refl)

abbrev pub wrong : List Event
wrong = ask ++ otp_change 0 (codes "1") ∷ otp_change 1 (codes "x") ∷ otp_paste (codes "111111") ∷ []

abbrev pub refusal : Failure
refusal = http 422 (some "bad code")

-- A refused code, a new code, and an answer that the vote was cast before.
abbrev second_try : List Event
second_try =
    wrong
    ++ verify_answer (failed refusal) 1
      ∷ otp_paste (codes "654321")
      ∷ verify_answer (failed (http 409 none)) 2
      ∷ resend
      ∷ []

second_try_test :
    ((run first wrong).verifications ≡ 1)
    × ((run first second_try).modal.is_already_voted ≡ true)
    × ((run first second_try).modal.step ≡ done_step)
unfolding session show
second_try_test = (refl, refl, refl)

abbrev complete : Modal
complete = record (opened ann (some (codes "f1"))) {
  step = otp_step;
  email = codes "a@b.c";
  otp = codes "1" ∷ codes "2" ∷ codes "3" ∷ codes "4" ∷ codes "5" ∷ codes "6" ∷ [];
}

complete-HasCells : HasCells complete.otp
complete-HasCells = record {
  six = refl;
  cells = (refl, (refl, (refl, (refl, (refl, (refl, tt))))));
}

single-Flight_example : Flight (run first second_try)
single-Flight_example = single-Flight ann device mounted second_try

done_stores_example : Outcome ann none (verdict open_yet first second_try) (run first second_try)
done_stores_example = done_stores ann device mounted second_try

requests_proper_example : AllProper 7 (run first second_try).sent
requests_proper_example = requests_proper ann device mounted second_try

requests-Paid_example : Paid 7 (run first second_try).sent (solved first second_try)
requests-Paid_example = requests-Paid ann device mounted second_try

retry_possible_example :
    let g = step (run first wrong) (verify_answer (failed refusal) 1) in
    (g.modal.otp ≡ empty_otp)
    × (g.modal.loading ≡ false)
    × ((step g (otp_paste (codes "654321"))).sent
        ≡ verify (run first wrong).modal.email (pasted_digits (codes "654321"))
          ∷ (run first wrong).sent)
unfolding session
retry_possible_example =
    retry_possible (run first wrong) refusal 1 (codes "654321")
      (single-Flight ann device mounted wrong) (omega arith) refl refl refl

paste-eq-type_example :
    (handle_otp_paste (codes "12-34567") complete).otp
    ≡ (type_from 0 (pasted_digits (codes "12-34567")) complete).otp
unfolding opened
paste-eq-type_example = paste-eq-type complete (codes "12-34567") complete-HasCells refl
