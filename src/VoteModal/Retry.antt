-- ===== src/VoteModal/Retry.antt =====
-- After a refused code the voter can try again; and pasting a code is typing it.
use mathlib.Core.List.{flatten}
use voting_app.Prelude.{
  if◌then◌else◌, ℕ, ◌≡◌, Text, all, take, not, keep, is_empty, true, ◌∷◌, [], refl, ap, false,
  length, some, ◌<◌, arith, Option, ◌∙◌, suc, ap₂, All, Bool, none, List, set, ltb, All-take, sym,
  ◌+◌,
}
use voting_app.Api.{Failure, verify, has_status, failed, Request}
use voting_app.Decimal.{is_digit}
use voting_app.VoteModal.{
  split, flatten, auto_submit, Modal, otp_step, all_filled, empty_otp, handle_otp_change,
  is_otp_step, handle_otp_paste,
}
use voting_app.VoteModal.Cells.{IsDigit, HasCells, All-keep_digits}
use voting_app.VoteModal.Flight.{Flight}
use voting_app.VoteModal.Session.{
  step, Session, otp_paste, verify_answer, handle, render, Event, enabled, with_verification,
}

flatten-split : (s : Text) → flatten (split s) ≡ s
unfolding flatten
flatten-split [] = refl
flatten-split (c ∷ s) = ap (λ (t : Text). c ∷ t) (flatten-split s)

all_filled-split : (s : Text) → all (λ d. not (is_empty d)) (split s) ≡ true
all_filled-split [] = refl
all_filled-split (c ∷ s) = all_filled-split s

abbrev pub pasted_digits : Text → Text
pasted_digits t = take 6 (keep is_digit t)

-- The state that a refusal leaves.
refused :
    (s : Session) (f : Failure) (id : ℕ)
    → Flight s
    → 0 < s.verifications
    → has_status 409 f ≡ false
    → let g = step s (verify_answer (failed f) id) in
      (g.modal.step ≡ s.modal.step)
      × (g.modal.loading ≡ false)
      × (g.modal.submitted ≡ false)
      × (g.modal.email ≡ s.modal.email)
      × (g.sent ≡ s.sent)
      × (g.modal.otp ≡ empty_otp)
unfolding step
refused s f id v p n = ground arith

-- The cells after a paste of six digits, and what the effect then sends.
pub submitted_paste :
    (m : Modal) (d : Text)
    → m.step ≡ otp_step
    → m.loading ≡ false
    → m.submitted ≡ false
    → m.otp ≡ split d
    → length d ≡ 6
    → (auto_submit m).1 ≡ some (verify m.email d)
unfolding auto_submit
submitted_paste m d o l b e n =
    let filled : all_filled m ≡ true = rw e (all_filled-split d) in
    let code : flatten m.otp ≡ d = rw e (flatten-split d) in
    let six : length (flatten m.otp) ≡ 6 = rw code n in ground arith

pub paste_handled :
    (s : Session) (t : Text)
    → length (pasted_digits t) ≡ 6
    → let g = handle s (otp_paste t) in
      (g.modal.otp ≡ split (pasted_digits t))
      × (g.modal.step ≡ s.modal.step)
      × (g.modal.loading ≡ s.modal.loading)
      × (g.modal.submitted ≡ s.modal.submitted)
      × (g.modal.email ≡ s.modal.email)
      × (g.sent ≡ s.sent)
unfolding handle
paste_handled s t n = ground arith

sent-with_verification :
    (s : Session) (x : Modal × Option Request) (r : Request)
    → x.1 ≡ some r
    → (with_verification s x).sent ≡ r ∷ s.sent
sent-with_verification s (m, none) r e = cc
sent-with_verification s (m, some q) r e = cc

sent-render :
    (s : Session) (r : Request) → (auto_submit s.modal).1 ≡ some r → (render s).sent ≡ r ∷ s.sent
unfolding render
sent-render s r e = sent-with_verification s (auto_submit s.modal) r e

step_enabled : (s : Session) (e : Event) → enabled s e ≡ true → step s e ≡ render (handle s e)
unfolding step
step_enabled s e a = ap (λ (b : Bool). if b then render (handle s e) else s) a

pasted :
    (s : Session) (t : Text)
    → s.modal.step ≡ otp_step
    → s.modal.loading ≡ false
    → s.modal.submitted ≡ false
    → length (pasted_digits t) ≡ 6
    → (step s (otp_paste t)).sent ≡ verify s.modal.email (pasted_digits t) ∷ s.sent
pasted s t o l b n =
    let (cells, st, lo, su, em, se) = paste_handled s t n in
    let g = handle s (otp_paste t) in
    let sends = submitted_paste g.modal (pasted_digits t) (st ∙ o) (lo ∙ l) (su ∙ b) cells n in
    ap (λ (x : Session). x.sent) (step_enabled s (otp_paste t) (ap is_otp_step o))
    ∙ sent-render g _ sends
    ∙ ap₂ (λ (e : Text) (l : List Request). verify e (pasted_digits t) ∷ l) em se

-- A refused code does not lock the voter out: after the server refuses a verification on the code
-- step (with anything but a 409), the cells are empty and the modal is not busy, and pasting a text
-- with at least six digits at once sends a verification of its first six, for the same address.
pub retry_possible :
    (s : Session) (f : Failure) (id : ℕ) (t : Text)
    → Flight s
    → 0 < s.verifications
    → s.modal.step ≡ otp_step
    → has_status 409 f ≡ false
    → length (pasted_digits t) ≡ 6
    → let g = step s (verify_answer (failed f) id) in
      (g.modal.otp ≡ empty_otp)
      × (g.modal.loading ≡ false)
      × ((step g (otp_paste t)).sent ≡ verify s.modal.email (pasted_digits t) ∷ s.sent)
retry_possible s f id t v p o n d =
    let g = step s (verify_answer (failed f) id) in
    let (st, lo, su, em, se, cells) = refused s f id v p n in
    (
      cells,
      lo,
      pasted g t (st ∙ o) lo su d
          ∙ ap₂ (λ (e : Text) (l : List Request). verify e (pasted_digits t) ∷ l) em se,
    )

-- Typing a code, digit after digit, from the cell `i` on.
pub type_from : ℕ → Text → Modal → Modal
type_from i [] m = m
type_from i (c ∷ s) m = type_from (suc i) s (handle_otp_change i (c ∷ []) m)

set_from : ℕ → Text → List Text → List Text
set_from i [] l = l
set_from i (c ∷ s) l = set_from (suc i) s (set l i (c ∷ []))

otp-type_from :
    (i : ℕ) (s : Text) (m : Modal) → All IsDigit s → (type_from i s m).otp ≡ set_from i s m.otp
unfolding type_from set_from handle_otp_change
otp-type_from i [] m h = refl
otp-type_from i (c ∷ s) m (p, h) =
    otp-type_from (suc i) s _ h
    ∙ ap
        (λ (b : Bool).
          set_from (suc i) s
            (if b
              then record m {
                otp = set m.otp i (c ∷ []);
                focus = if ltb i 5 then some (i + 1) else m.focus;
              }
              else m).otp)
        p

set_six : (s : Text) (l : List Text) → length s ≡ 6 → length l ≡ 6 → set_from 0 s l ≡ split s
unfolding set_from
set_six (a ∷ b ∷ c ∷ d ∷ e ∷ f ∷ []) (u ∷ v ∷ w ∷ x ∷ y ∷ z ∷ []) n m = refl
set_six s l n m = absurd (omega arith)

otp-paste :
    (t : Text) (m : Modal)
    → length (pasted_digits t) ≡ 6
    → (handle_otp_paste t m).otp ≡ split (pasted_digits t)
unfolding handle_otp_paste
otp-paste t m n = ground arith

-- Pasting a text that has at least six digits fills the cells as typing its first six digits, one
-- cell after the other, does.
pub paste-eq-type :
    (m : Modal) (t : Text)
    → HasCells m.otp
    → length (pasted_digits t) ≡ 6
    → (handle_otp_paste t m).otp ≡ (type_from 0 (pasted_digits t) m).otp
paste-eq-type m t h n =
    let digits = All-take IsDigit 6 (keep is_digit t) (All-keep_digits t) in
    otp-paste t m n
    ∙ sym (otp-type_from 0 (pasted_digits t) m digits ∙ set_six (pasted_digits t) m.otp n h.six)
