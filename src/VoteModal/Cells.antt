-- ===== src/VoteModal/Cells.antt =====
-- The six cells of the code: each holds at most one digit, and a complete code is six digits.
use mathlib.Core.List.{flatten}
use voting_app.Prelude.{
  ◌==◌, ℕ, suc, ◌≡◌, refl, some, List, [], ◌∷◌, Text, true, false, not, length, set, take, keep,
  all, is_empty, All, All-set, length-set, length-map, arith, ap, Bool-cases, inl, inr, ◌∙◌, ==_iff,
  All-take,
}
use voting_app.Api.{verify}
use voting_app.Decimal.{is_digit}
use voting_app.Storage.{Storage}
use voting_app.Toasts.{Provider}
use voting_app.Types.{Candidate}
use voting_app.VoteModal.{
  Modal, empty_otp, is_cell, split, all_filled, auto_submit, otp_step, handle_otp_paste,
  handle_otp_change,
}
use voting_app.VoteModal.Session.{
  Session, Event, edit_email, captcha_success, captcha_lost, submit, otp_change, otp_key_down,
  otp_paste, resend, fingerprint_done, request_answer, verify_answer, handle, render, step, run,
  start,
}

abbrev pub IsCell : Text → Type 0
IsCell t = is_cell t ≡ true

pub record HasCells (l : List Text) : Type 0 where
  pub six : length l ≡ 6
  pub cells : All IsCell l

abbrev pub IsDigit : ℕ → Type 0
IsDigit c = is_digit c ≡ true

empty-HasCells : HasCells empty_otp
empty-HasCells = record { six = refl; cells = (refl, (refl, (refl, (refl, (refl, (refl, tt)))))) }

set-HasCells :
    (l : List Text) (i : ℕ) (v : Text) → is_cell v ≡ true → HasCells l → HasCells (set l i v)
set-HasCells l i v c h = record {
  six = rw (length-set l i v) h.six;
  cells = All-set IsCell l i v c h.cells;
}

pub All-keep_digits : (s : Text) → All IsDigit (keep is_digit s)
All-keep_digits [] = tt
All-keep_digits (c ∷ s) = elim (Bool-cases (is_digit c)) [
  | inl e ↦ rw e (e, All-keep_digits s)
  | inr e ↦ rw e (All-keep_digits s)
]

split_cells : (s : Text) → All IsDigit s → All IsCell (split s)
split_cells [] h = tt
split_cells (c ∷ s) (p, h) = (p, split_cells s h)

paste-HasCells : (t : Text) (m : Modal) → HasCells m.otp → HasCells (handle_otp_paste t m).otp
unfolding handle_otp_paste
paste-HasCells t m h =
    let paste = take 6 (keep is_digit t) in
    elim (Bool-cases (length paste == 6)) [
      | inl e ↦ rw e (record {
        six = length-map (λ c. c ∷ []) paste ∙ (==_iff _ 6).0 e;
        cells = split_cells paste (All-take IsDigit 6 (keep is_digit t) (All-keep_digits t));
      })
      | inr e ↦ rw e h
    ]

change-HasCells :
    (i : ℕ) (v : Text) (m : Modal) → HasCells m.otp → HasCells (handle_otp_change i v m).otp
unfolding handle_otp_change
change-HasCells i v m h = elim (Bool-cases (is_cell v)) [
  | inl e ↦ rw e (set-HasCells m.otp i v e h)
  | inr e ↦ rw e h
]

pub flatten_cells :
    (l : List Text)
    → All IsCell l
    → all (λ d. not (is_empty d)) l ≡ true
    → (length (flatten l) ≡ length l) × All IsDigit (flatten l)
unfolding flatten
flatten_cells [] h f = (refl, tt)
flatten_cells ([] ∷ l) h f = cc
flatten_cells ((c ∷ []) ∷ l) (p, h) f =
    let (n, digits) = flatten_cells l h f in (ap suc n, (p, digits))
flatten_cells ((c ∷ d ∷ t) ∷ l) (p, h) f = cc

abbrev pub WithCells : Session → Type 0
WithCells s = HasCells s.modal.otp

pub handle-WithCells : (s : Session) (e : Event) → WithCells s → WithCells (handle s e)
unfolding handle
handle-WithCells s (edit_email v) h = h
handle-WithCells s (captcha_success t) h = h
handle-WithCells s captcha_lost h = h
handle-WithCells s submit h = ground arith
handle-WithCells s (otp_change i v) h = change-HasCells i v s.modal h
handle-WithCells s (otp_key_down i b) h = ground arith
handle-WithCells s (otp_paste t) h = paste-HasCells t s.modal h
handle-WithCells s resend h = empty-HasCells
handle-WithCells s (fingerprint_done v f) h = h
handle-WithCells s (request_answer r) h = ground arith
handle-WithCells s (verify_answer r id) h = ground (arith, empty-HasCells)

render-WithCells : (s : Session) → WithCells s → WithCells (render s)
unfolding render
render-WithCells s h = ground arith

pub step-WithCells : (s : Session) (e : Event) → WithCells s → WithCells (step s e)
unfolding step
step-WithCells s e h = ground (arith, render-WithCells (handle s e) (handle-WithCells s e h))

pub run-WithCells : (s : Session) (es : List Event) → WithCells s → WithCells (run s es)
unfolding run
run-WithCells s [] h = h
run-WithCells s (e ∷ es) h = run-WithCells (step s e) es (step-WithCells s e h)

pub start-WithCells : (c : Candidate) (g : Storage) (p : Provider) → WithCells (start c g p)
unfolding start
start-WithCells c g p = empty-HasCells

-- A modal whose cells are six, each empty or one digit, and which is complete, on the code step, not
-- busy and not yet submitted, sends one verification: its code is the six digits in the cells, and
-- the modal is busy from then on.
pub auto_submit_complete :
    (m : Modal)
    → HasCells m.otp
    → all_filled m ≡ true
    → m.step ≡ otp_step
    → m.loading ≡ false
    → m.submitted ≡ false
    → ((auto_submit m).1 ≡ some (verify m.email (flatten m.otp)))
      × ((auto_submit m).0.loading ≡ true)
      × (length (flatten m.otp) ≡ 6)
      × All IsDigit (flatten m.otp)
unfolding auto_submit
auto_submit_complete m h f o l b =
    let (n, digits) = flatten_cells m.otp h.cells f in
    let six : length (flatten m.otp) ≡ 6 = n ∙ h.six in (ground arith, ground arith, six, digits)

-- In every state that events lead to there are six cells, and each holds at most one digit.
pub cells-HasCells :
    (c : Candidate) (g : Storage) (p : Provider) (es : List Event)
    → HasCells (run (start c g p) es).modal.otp
cells-HasCells c g p es = run-WithCells (start c g p) es (start-WithCells c g p)
