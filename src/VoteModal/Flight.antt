-- ===== src/VoteModal/Flight.antt =====
-- At most one request of the modal is in flight, and the effect runs once for a complete code.
use voting_app.Prelude.{
  ℕ, ◌+◌, ◌≡◌, none, List, [], ◌∷◌, true, false, if◌then◌else◌, arith, Bool-cases, inl, inr, ◌&&◌,
}
use voting_app.Storage.{Storage}
use voting_app.Toasts.{Provider}
use voting_app.Types.{Candidate}
use voting_app.VoteModal.{Modal, auto_submit, all_filled, is_done}
use voting_app.VoteModal.Session.{
  Session, Event, edit_email, captcha_success, captcha_lost, submit, otp_change, otp_key_down,
  otp_paste, resend, fingerprint_done, request_answer, verify_answer, handle, render, step, run,
  start, enabled,
}

-- The number of requests in flight.
abbrev pub in_flight : Session → ℕ
in_flight s = s.otp_requests + s.verifications

pub record Flight (s : Session) : Type 0 where
  pub one : in_flight s ≡ (if s.modal.loading then 1 else 0)
  pub settled : (is_done s.modal.step && s.modal.loading) ≡ false

handle-Flight : (s : Session) (e : Event) → enabled s e ≡ true → Flight s → Flight (handle s e)
unfolding handle
handle-Flight s (edit_email v) a h = ground arith
handle-Flight s (captcha_success t) a h = ground arith
handle-Flight s captcha_lost a h = ground arith
handle-Flight s submit a h = ground arith
handle-Flight s (otp_change i v) a h = ground arith
handle-Flight s (otp_key_down i b) a h = ground arith
handle-Flight s (otp_paste t) a h = ground arith
handle-Flight s resend a h = ground arith
handle-Flight s (fingerprint_done v f) a h = ground arith
handle-Flight s (request_answer r) a h = ground arith
handle-Flight s (verify_answer r id) a h = ground arith

render-Flight : (s : Session) → Flight s → Flight (render s)
unfolding render
render-Flight s h = ground arith

pub step-Flight : (s : Session) (e : Event) → Flight s → Flight (step s e)
unfolding step
step-Flight s e h = elim (Bool-cases (enabled s e)) [
  | inl a ↦ rw a (render-Flight (handle s e) (handle-Flight s e a h))
  | inr a ↦ rw a h
]

pub run-Flight : (s : Session) (es : List Event) → Flight s → Flight (run s es)
unfolding run
run-Flight s [] h = h
run-Flight s (e ∷ es) h = run-Flight (step s e) es (step-Flight s e h)

pub start-Flight : (c : Candidate) (g : Storage) (p : Provider) → Flight (start c g p)
unfolding start
start-Flight c g p = ground arith

-- Whatever the voter does and however the server answers, the modal is busy exactly when one of its
-- requests is in flight, there is never a second one, and none once the modal is done.
pub single-Flight :
    (c : Candidate) (g : Storage) (p : Provider) (es : List Event) → Flight (run (start c g p) es)
single-Flight c g p es = run-Flight (start c g p) es (start-Flight c g p)

-- Where none of the effect's dependencies (complete, step, busy) has changed since its last run, and
-- `submittedRef` was not written, running it again sends nothing and changes nothing: it makes no
-- difference that React skips it.
pub auto_submit_skipped :
    (m n : Modal)
    → all_filled n ≡ all_filled (auto_submit m).0
    → n.step ≡ (auto_submit m).0.step
    → n.loading ≡ (auto_submit m).0.loading
    → n.submitted ≡ (auto_submit m).0.submitted
    → auto_submit n ≡ (n, none)
unfolding auto_submit
auto_submit_skipped m n a b c d = ground arith
