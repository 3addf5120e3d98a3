-- ===== src/VoteModal/Captcha.antt =====
-- A captcha token is sent in one request at most.
use mathlib.Core.List.{flatten}
use voting_app.Prelude.{
  ℕ, ◌≡◌, Bool, true, List, arith, ◌∷◌, ◌&&◌, [], ◌==◌, Bool-cases, inl, inr, refl, Text, sym,
  subst, Option, none, some, if◌then◌else◌, ◌++◌,
}
use voting_app.Api.{Request, request_otp, verify}
use voting_app.Storage.{truthy, Storage}
use voting_app.Toasts.{Provider}
use voting_app.Types.{Candidate}
use voting_app.VoteModal.{Modal, text_of, auto_submit}
use voting_app.VoteModal.Flight.{Flight, step-Flight, start-Flight}
use voting_app.VoteModal.Requests.{ready_request, auto_submit_keeps}
use voting_app.VoteModal.Session.{
  handle, Session, start, render, run, Event, is_email_step, step, captcha_success, enabled, submit,
  edit_email, otp_change, otp_key_down, otp_paste, fingerprint_done, request_answer, verify_answer,
  captcha_lost, resend, with_verification,
}

-- The token that the event brings.
abbrev tokens : Event → List Text
tokens (captcha_success t) = t ∷ []
tokens e = []

-- The tokens of the solved captchas of a run that goes on from `s`, after the tokens `ts`; the last one
-- first.
unfoldable pub solved_after : List Text → Session → List Event → List Text
unfolding step
solved_after ts s [] = ts
solved_after ts s (e ∷ es) = solved_after (if enabled s e then tokens e ++ ts else ts) (step s e) es

abbrev pub solved : Session → List Event → List Text
solved s es = solved_after [] s es

-- The requests of the candidate `id`, and the tokens of the solved captchas, both with the last one
-- first: each request for a code has the token of a captcha of its own in its place for the token, in
-- their order.
pub data Paid (id : ℕ) : List Request → List Text → Type 0 where
  nothing : Paid id [] []
  unused : {rs : List Request} {ts : List Text} → (t : Text) → Paid id rs ts → Paid id rs (t ∷ ts)
  paid :
      {rs : List Request} {ts : List Text}
      → (email fingerprint t : Text) → Paid id rs ts
      → Paid id (request_otp email fingerprint t id ∷ rs) (t ∷ ts)
  verified :
      {rs : List Request} {ts : List Text}
      → (email code : Text) → Paid id rs ts
      → Paid id (verify email code ∷ rs) ts

-- Whether the modal holds a token that is not in use.
abbrev spare : Session → Bool
spare s = is_email_step s.modal.step && (truthy s.modal.captcha_token && s.otp_requests == 0)

-- A spare token is the last one that was solved, and none of the requests has it.
abbrev Unspent : ℕ → Text → List Request → List Text → Type 0
Unspent id t rs ts = (us : List Text) × (ts ≡ t ∷ us) × Paid id rs us

record Purse (id : ℕ) (ts : List Text) (s : Session) : Type 0 where
  candidate : s.modal.candidate.id ≡ id
  all : Paid id s.sent ts
  held : spare s ≡ true → Unspent id (text_of s.modal.captcha_token) s.sent ts

module _ (id : ℕ) where
  submit-Purse :
      (ts : List Text) (s : Session)
      → Flight s
      → enabled s submit ≡ true
      → Purse id ts s
      → Purse id ts (handle s submit)
  unfolding handle
  submit-Purse ts s f a h =
      let sends = (ready_request s.modal (ground arith)).0 in
      let (us, q, p) = h.held (ground (arith, f.one)) in
      let r = paid s.modal.email (text_of s.modal.fingerprint) (text_of s.modal.captcha_token) p in
      rw sends (record {
        candidate = h.candidate;
        all =
            subst
              (λ (k : ℕ).
                Paid id
                  (request_otp s.modal.email (text_of s.modal.fingerprint)
                      (text_of s.modal.captcha_token) k
                    ∷ s.sent)
                  ts)
              (sym h.candidate) (subst (Paid id _) (sym q) r);
        held = λ e. absurd (ground arith);
      })

  success-Purse :
      (ts : List Text) (t : Text) (s : Session)
      → Purse id ts s
      → Purse id (t ∷ ts) (handle s (captcha_success t))
  unfolding handle
  success-Purse ts t s h = record {
    candidate = h.candidate;
    all = unused t h.all;
    held = λ e. (ts, refl, h.all);
  }

  handle-Purse :
      (ts : List Text) (s : Session) (e : Event)
      → Flight s
      → enabled s e ≡ true
      → Purse id ts s
      → Purse id (tokens e ++ ts) (handle s e)
  unfolding handle
  handle-Purse ts s (edit_email v) f a h = ground arith
  handle-Purse ts s (captcha_success t) f a h = success-Purse ts t s h
  handle-Purse ts s captcha_lost f a h = ground arith
  handle-Purse ts s submit f a h = submit-Purse ts s f a h
  handle-Purse ts s (otp_change i v) f a h = ground arith
  handle-Purse ts s (otp_key_down i b) f a h = ground arith
  handle-Purse ts s (otp_paste t) f a h = ground arith
  handle-Purse ts s resend f a h = ground arith
  handle-Purse ts s (fingerprint_done v g) f a h = ground arith
  handle-Purse ts s (request_answer r) f a h = ground arith
  handle-Purse ts s (verify_answer r i) f a h = ground arith

-- What the effect sends is a verification.
auto_submit_verifies :
    (m : Modal) {r : Request} → (auto_submit m).1 ≡ some r → r ≡ verify m.email (flatten m.otp)
unfolding auto_submit
auto_submit_verifies m e = ground arith

auto_submit-token : (m : Modal) → (auto_submit m).0.captcha_token ≡ m.captcha_token
unfolding auto_submit
auto_submit-token m = ground arith

module _ (id : ℕ) where
  held_as :
      (ts : List Text) (s : Session) (m : Modal)
      → m.step ≡ s.modal.step
      → m.captcha_token ≡ s.modal.captcha_token
      → (spare s ≡ true → Unspent id (text_of s.modal.captcha_token) s.sent ts)
      → is_email_step m.step && (truthy m.captcha_token && s.otp_requests == 0) ≡ true
      → Unspent id (text_of m.captcha_token) s.sent ts
  held_as ts s m k t h e =
      subst (λ (x : Option Text). Unspent id (text_of x) s.sent ts) (sym t) (h (ground arith))

  -- A modal with the same candidate, step and token.
  with_verification-Purse :
      (ts : List Text) (s : Session) (m : Modal) (o : Option Request)
      → m.candidate ≡ s.modal.candidate
      → m.step ≡ s.modal.step
      → m.captcha_token ≡ s.modal.captcha_token
      → ((r : Request) → o ≡ some r → (email : Text) × (code : Text) × (r ≡ verify email code))
      → Purse id ts s
      → Purse id ts (with_verification s (m, o))
  with_verification-Purse ts s m none c k t v h = record {
    candidate = rw c h.candidate;
    all = h.all;
    held = held_as ts s m k t h.held;
  }
  with_verification-Purse ts s m (some r) c k t v h =
      let (email, code, q) = v r refl in
      record {
        candidate = rw c h.candidate;
        all = subst (λ x. Paid id (x ∷ s.sent) ts) (sym q) (verified email code h.all);
        held = λ e.
            let (us, w, p) = held_as ts s m k t h.held e in
            (us, w, subst (λ x. Paid id (x ∷ s.sent) us) (sym q) (verified email code p));
      }

  render-Purse : (ts : List Text) (s : Session) → Purse id ts s → Purse id ts (render s)
  unfolding render
  render-Purse ts s h =
      let (c, m, k) = auto_submit_keeps s.modal in
      with_verification-Purse ts s (auto_submit s.modal).0 (auto_submit s.modal).1 c k
        (auto_submit-token s.modal)
        (λ r e. (s.modal.email, flatten s.modal.otp, auto_submit_verifies s.modal e)) h

  step-Purse :
      (ts : List Text) (s : Session) (e : Event)
      → Flight s
      → Purse id ts s
      → Purse id (if enabled s e then tokens e ++ ts else ts) (step s e)
  unfolding step
  step-Purse ts s e f h = elim (Bool-cases (enabled s e)) [
    | inl a ↦ rw a (render-Purse (tokens e ++ ts) (handle s e) (handle-Purse id ts s e f a h))
    | inr a ↦ rw a h
  ]

  run-Purse :
      (ts : List Text) (s : Session) (es : List Event)
      → Flight s
      → Purse id ts s
      → Purse id (solved_after ts s es) (run s es)
  unfolding run solved_after
  run-Purse ts s [] f h = h
  run-Purse ts s (e ∷ es) f h =
      run-Purse (if enabled s e then tokens e ++ ts else ts) (step s e) es (step-Flight s e f)
        (step-Purse ts s e f h)

start-Purse : (c : Candidate) (g : Storage) (p : Provider) → Purse c.id [] (start c g p)
unfolding start
start-Purse c g p = record { candidate = refl; all = nothing; held = λ e. cc }

-- In a run of a freshly opened modal, each request for a code that is sent has, in its place for it,
-- the token of a captcha that was solved before, each request that of a captcha of its own: no
-- solution of a captcha serves two requests.
pub requests-Paid :
    (c : Candidate) (g : Storage) (p : Provider) (es : List Event)
    → Paid c.id (run (start c g p) es).sent (solved (start c g p) es)
unfolding solved_after
requests-Paid c g p es =
    (run-Purse c.id [] (start c g p) es (start-Flight c g p) (start-Purse c g p)).all
