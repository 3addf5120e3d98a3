-- ===== src/VoteModal/Done.antt =====
-- The end of the dialogue: what the last screen says is what the storage holds.
use voting_app.Prelude.{
  ◌≡◌, Option, some, true, false, if◌then◌else◌, arith, Text, Bool-cases, List, inl, ◌∷◌, inr, [],
  Bool,
}
use voting_app.Api.{ok, failed, Failure, has_status}
use voting_app.Decimal.{show}
use voting_app.Storage.{Storage}
use voting_app.Toasts.{Provider}
use voting_app.Types.{Candidate}
use voting_app.VoteModal.{done_step, already_voted, recorded, is_done, Modal}
use voting_app.VoteModal.Flight.{Flight, in_flight, step-Flight, start-Flight}
use voting_app.VoteModal.Session.{
  Session, Event, edit_email, captcha_success, captcha_lost, submit, otp_change, otp_key_down,
  otp_paste, resend, fingerprint_done, request_answer, verify_answer, handle, render, enabled, step,
  run, start,
}

-- What the server has said of the vote.
pub data Verdict : Type 0 where
  open_yet accepted cast_before : Verdict

abbrev of_failure : Failure → Verdict → Verdict
of_failure f v = if has_status 409 f then cast_before else v

-- What an answer adds to it: a verification is accepted, or either request gets a 409.
abbrev pub judged : Event → Verdict → Verdict
judged (verify_answer (ok u) id) v = accepted
judged (verify_answer (failed f) id) v = of_failure f v
judged (request_answer (failed f)) v = of_failure f v
judged e v = v

-- What the answers that come in a run, in their order, say of the vote.
unfoldable pub verdict : Verdict → Session → List Event → Verdict
unfolding step
verdict v s [] = v
verdict v s (e ∷ es) = verdict (if enabled s e then judged e v else v) (step s e) es

abbrev pub is_decided : Verdict → Bool
is_decided open_yet = false
is_decided accepted = true
is_decided cast_before = true

-- What the modal shows of it.
abbrev pub Says : Verdict → Modal → Type 0
Says open_yet m = m.is_already_voted ≡ false
Says accepted m = (m.done_message ≡ recorded) × (m.is_already_voted ≡ false)
Says cast_before m = (m.done_message ≡ already_voted) × (m.is_already_voted ≡ true)

-- What the modal and the storage say of a vote for the candidate `c`, where the storage held `before`
-- when the modal was opened, and the server has said `v`.
pub record Outcome (c : Candidate) (before : Option Text) (v : Verdict) (s : Session) : Type 0 where
  pub candidate : s.modal.candidate ≡ c
  pub stored :
      s.storage.voted_candidate_id ≡ (if is_done s.modal.step then some (show c.id) else before)
  pub decided : is_done s.modal.step ≡ is_decided v
  pub says : Says v s.modal

module _ (c : Candidate) (before : Option Text) where
  answer-Outcome :
      (v : Verdict) (s : Session) (e : Event)
      → enabled s e ≡ true
      → Flight s
      → Outcome c before v s
      → Outcome c before (judged e v) (handle s e)
  unfolding handle
  answer-Outcome v s (edit_email t) a f h = ground arith
  answer-Outcome v s (captcha_success t) a f h = ground arith
  answer-Outcome v s captcha_lost a f h = ground arith
  answer-Outcome v s submit a f h = ground arith
  answer-Outcome v s (otp_change i t) a f h = ground arith
  answer-Outcome v s (otp_key_down i b) a f h = ground arith
  answer-Outcome v s (otp_paste t) a f h = ground arith
  answer-Outcome v s resend a f h = ground arith
  answer-Outcome v s (fingerprint_done t g) a f h = ground arith
  answer-Outcome v s (request_answer r) a f h = ground arith
  answer-Outcome v s (verify_answer r id) a f h = ground arith

  render-Outcome :
      (v : Verdict) (s : Session) → Outcome c before v s → Outcome c before v (render s)
  unfolding render
  render-Outcome v s h = ground arith

  step-Outcome :
      (v : Verdict) (s : Session) (e : Event)
      → Flight s
      → Outcome c before v s
      → Outcome c before (if enabled s e then judged e v else v) (step s e)
  unfolding step
  step-Outcome v s e f h = elim (Bool-cases (enabled s e)) [
    | inl a ↦ rw a (render-Outcome (judged e v) (handle s e) (answer-Outcome v s e a f h))
    | inr a ↦ rw a h
  ]

  run-Outcome :
      (v : Verdict) (s : Session) (es : List Event)
      → Flight s
      → Outcome c before v s
      → Outcome c before (verdict v s es) (run s es)
  unfolding run verdict
  run-Outcome v s [] f h = h
  run-Outcome v s (e ∷ es) f h =
      run-Outcome (if enabled s e then judged e v else v) (step s e) es (step-Flight s e f)
        (step-Outcome v s e f h)

start-Outcome :
    (c : Candidate) (g : Storage) (p : Provider)
    → Outcome c g.voted_candidate_id open_yet (start c g p)
unfolding start
start-Outcome c g p = ground arith

-- Whatever happens in the modal of a candidate, the last screen is shown exactly from the moment that
-- the server accepts a verification or answers a request with a 409. Exactly from then on the
-- storage's `voted_candidate_id` is that candidate's id; until then it is what it was. The last screen
-- says that the vote is recorded if the verification was accepted, and that it was cast before if the
-- answer was a 409.
pub done_stores :
    (c : Candidate) (g : Storage) (p : Provider) (es : List Event)
    → Outcome c g.voted_candidate_id (verdict open_yet (start c g p) es) (run (start c g p) es)
done_stores c g p es =
    run-Outcome c g.voted_candidate_id open_yet (start c g p) es (start-Flight c g p)
      (start-Outcome c g p)

-- On the last screen nothing is in flight, and no event leaves it, sends a request, or changes its
-- message or the stored vote.
pub done_step_final :
    (s : Session) (e : Event)
    → Flight s
    → s.modal.step ≡ done_step
    → (in_flight s ≡ 0)
      × ((step s e).modal.step ≡ done_step)
      × ((step s e).sent ≡ s.sent)
      × ((step s e).modal.done_message ≡ s.modal.done_message)
      × ((step s e).storage.voted_candidate_id ≡ s.storage.voted_candidate_id)
unfolding step
done_step_final s e f d = ground arith
