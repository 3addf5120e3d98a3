-- ===== src/VoteModal/Requests.antt =====
-- Every request that the modal sends is well formed, and a code is verified only for an address that
-- a code was requested for.
use voting_app.Prelude.{
  ℕ, ◌≡◌, Text, List, ◌∷◌, is_empty, ◌⊎◌, length, true, false, All, [], ◌<◌, arith, ap, none, inl,
  some, Option, sym, ◌∙◌, inr, Bool-cases, refl, subst,
}
use voting_app.Api.{Request, request_otp, verify}
use voting_app.Storage.{Storage}
use voting_app.Toasts.{Provider}
use voting_app.Types.{Candidate}
use voting_app.VoteModal.{otp_step, Modal, handle_request_otp, text_of, auto_submit, flatten}
use voting_app.VoteModal.Cells.{
  IsDigit, HasCells, flatten_cells, WithCells, step-WithCells, handle-WithCells, start-WithCells,
}
use voting_app.VoteModal.Flight.{Flight, step-Flight, start-Flight}
use voting_app.VoteModal.Session.{
  Session, handle, enabled, Event, submit, edit_email, captcha_success, otp_change, otp_key_down,
  otp_paste, fingerprint_done, submit_disabled, request_answer, verify_answer, captcha_lost, resend,
  with_verification, render, run, start, step,
}

-- A request for a code, with everything that the server asks for.
abbrev pub IsCodeRequest : ℕ → Text → Request → Type 0
IsCodeRequest id email r =
    (fingerprint : Text) × (captcha : Text) × (r ≡ request_otp email fingerprint captcha id)
    × (is_empty email ≡ false)
    × (is_empty fingerprint ≡ false)
    × (is_empty captcha ≡ false)

-- Among the requests there is one for a code sent to this address.
abbrev pub Asked : ℕ → Text → List Request → Type 0
Asked id email [] = ⊥
Asked id email (r ∷ l) = IsCodeRequest id email r ⊎ Asked id email l

-- A verification of six digits, sent after a request for a code for the same address.
abbrev pub IsVerification : ℕ → List Request → Request → Type 0
IsVerification id before r =
    (email : Text) × (code : Text) × (r ≡ verify email code)
    × (length code ≡ 6)
    × All IsDigit code
    × Asked id email before

-- The requests, the last one first.
abbrev pub AllProper : ℕ → List Request → Type 0
AllProper id [] = Unit
AllProper id (r ∷ l) =
    (((email : Text) × IsCodeRequest id email r) ⊎ IsVerification id l r) × AllProper id l

record Log (id : ℕ) (s : Session) : Type 0 where
  candidate : s.modal.candidate.id ≡ id
  proper : AllProper id s.sent
  asked : s.modal.step ≡ otp_step → Asked id s.modal.email s.sent
  asking : 0 < s.otp_requests → Asked id s.modal.email s.sent

abbrev pub code_request : Modal → Request
code_request m =
    request_otp m.email (text_of m.fingerprint) (text_of m.captcha_token) m.candidate.id

pub ready_request :
    (m : Modal)
    → submit_disabled m ≡ false
    → (handle_request_otp m ≡ (record m { loading = true; error = none }, some (code_request m)))
      × (is_empty m.email ≡ false)
      × (is_empty (text_of m.fingerprint) ≡ false)
      × (is_empty (text_of m.captcha_token) ≡ false)
unfolding handle_request_otp
ready_request m d = (ground arith, ground arith, ground arith, ground arith)

module _ (id : ℕ) where
  submit-Log : (s : Session) → enabled s submit ≡ true → Log id s → Log id (handle s submit)
  unfolding handle
  submit-Log s a h =
      let (sends, e, f, c) = ready_request s.modal (ground arith) in
      let r : IsCodeRequest id s.modal.email (code_request s.modal) = (
        text_of s.modal.fingerprint,
        text_of s.modal.captcha_token,
        ap (request_otp s.modal.email _ _) h.candidate,
        e,
        f,
        c,
      ) in
      rw sends (record {
        candidate = h.candidate;
        proper = (inl (s.modal.email, r), h.proper);
        asked = λ o. inl r;
        asking = λ o. inl r;
      })

  handle-Log :
      (s : Session) (e : Event) → enabled s e ≡ true → Flight s → Log id s → Log id (handle s e)
  unfolding handle
  handle-Log s (edit_email v) a f h = record {
    candidate = h.candidate;
    proper = h.proper;
    asked = λ o. absurd (ground arith);
    asking = λ p. absurd (ground (arith, f.one));
  }
  handle-Log s (captcha_success t) a f h = ground arith
  handle-Log s captcha_lost a f h = ground arith
  handle-Log s submit a f h = submit-Log s a h
  handle-Log s (otp_change i v) a f h = ground arith
  handle-Log s (otp_key_down i b) a f h = ground arith
  handle-Log s (otp_paste t) a f h = ground arith
  handle-Log s resend a f h = ground arith
  handle-Log s (fingerprint_done v g) a f h = ground arith
  handle-Log s (request_answer r) a f h = ground arith
  handle-Log s (verify_answer r i) a f h = ground arith

auto_submit_sends :
    (m : Modal) {r : Request}
    → HasCells m.otp
    → (auto_submit m).1 ≡ some r
    → (m.step ≡ otp_step)
      × (r ≡ verify m.email (flatten m.otp))
      × (length (flatten m.otp) ≡ 6)
      × All IsDigit (flatten m.otp)
unfolding auto_submit
auto_submit_sends m h e =
    let (n, digits) = flatten_cells m.otp h.cells (ground arith) in
    (ground arith, ground arith, n ∙ h.six, digits)

pub auto_submit_keeps :
    (m : Modal)
    → ((auto_submit m).0.candidate ≡ m.candidate)
      × ((auto_submit m).0.email ≡ m.email)
      × ((auto_submit m).0.step ≡ m.step)
unfolding auto_submit
auto_submit_keeps m = ground arith

module _ (id : ℕ) where
  with_verification-Log :
      (s : Session) (m : Modal) (o : Option Request)
      → (m.candidate ≡ s.modal.candidate) × (m.email ≡ s.modal.email) × (m.step ≡ s.modal.step)
      → ((r : Request) → o ≡ some r → IsVerification id s.sent r)
      → Log id s
      → Log id (with_verification s (m, o))
  with_verification-Log s m none k v h = record {
    candidate = rw (k.0) h.candidate;
    proper = h.proper;
    asked = λ o. rw (k.1) (h.asked (sym k.2 ∙ o));
    asking = λ p. rw (k.1) (h.asking p);
  }
  with_verification-Log s m (some r) k v h = record {
    candidate = rw (k.0) h.candidate;
    proper = (inr (v r refl), h.proper);
    asked = λ o. inr (subst (λ t. Asked id t s.sent) (sym k.1) (h.asked (sym k.2 ∙ o)));
    asking = λ p. inr (subst (λ t. Asked id t s.sent) (sym k.1) (h.asking p));
  }

  render-Log : (s : Session) → WithCells s → Log id s → Log id (render s)
  unfolding render
  render-Log s c h =
      with_verification-Log s (auto_submit s.modal).0 (auto_submit s.modal).1
        (auto_submit_keeps s.modal)
        (λ r e.
          let (o, v, n, d) = auto_submit_sends s.modal c e in
          (s.modal.email, flatten s.modal.otp, v, n, d, h.asked o))
        h

  run-Log : (s : Session) (es : List Event) → WithCells s → Flight s → Log id s → Log id (run s es)
  unfolding run step
  run-Log s [] c f h = h
  run-Log s (e ∷ es) c f h =
      run-Log (step s e) es (step-WithCells s e c) (step-Flight s e f)
        (elim (Bool-cases (enabled s e)) [
          | inl a ↦
              rw a (render-Log (handle s e) (handle-WithCells s e c) (handle-Log id s e a f h))
          | inr a ↦ rw a h
        ])

start-Log : (c : Candidate) (g : Storage) (p : Provider) → Log c.id (start c g p)
unfolding start
start-Log c g p = record {
  candidate = refl;
  proper = tt;
  asked = λ o. cc;
  asking = λ h. absurd (omega arith);
}

-- Whatever the voter does and the server answers, each request that the modal sends is either a
-- request for a code, with its candidate's id and a non-empty address, fingerprint and captcha token,
-- or a verification of six digits for an address to which it sent a request for a code before.
pub requests_proper :
    (c : Candidate) (g : Storage) (p : Provider) (es : List Event)
    → AllProper c.id (run (start c g p) es).sent
requests_proper c g p es =
    (run-Log c.id (start c g p) es (start-WithCells c g p) (start-Flight c g p)
      (start-Log c g p)).proper
