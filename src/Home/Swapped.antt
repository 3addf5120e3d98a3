-- ===== src/Home/Swapped.antt =====
-- What a vote button behind an open modal does to the modal.
use voting_app.Prelude.{
  ℕ, Bool, true, false, List, [], ◌∷◌, ◌≡◌, Option, some, none, arith, refl, get_elem?, Text, ap,
  ap₂, ◌∙◌, get_or_else, sym, subst, length, ◌<◌, if◌then◌else◌,
}
use voting_app.Api.{Request, verify, ok}
use voting_app.CandidateCard.{has_voted}
use voting_app.Decimal.{show}
use voting_app.Home.{shown_modal, handle_vote, is_open}
use voting_app.Home.Page.{
  Page, render, handle, step, vote_of, in_modal, shared, with_candidate, modal_step, votes,
  in_shown,
}
use voting_app.Home.Shown.{Matched}
use voting_app.Storage.{Storage}
use voting_app.Types.{Candidate}
use voting_app.VoteModal.{Modal, otp_step, auto_submit, verify_answered, is_otp_step}
use voting_app.VoteModal.Retry.{pasted_digits, submitted_paste, paste_handled}
use voting_app.VoteModal.Session
use voting_app.VoteModal.Session.{Session, otp_paste, verify_answer, with_verification}

-- A modal of the candidate `d` that has sent `r` for a verification, after the requests `l`.
record Verifying (d : Candidate) (r : Request) (l : List Request) (s : Session) : Type 0 where
  sent : s.sent ≡ r ∷ l
  asker : s.asker ≡ d
  pending : 0 < s.verifications

Verifying-render :
    (s : Session) (x : Modal × Option Request) (r : Request)
    → x.1 ≡ some r
    → Verifying s.modal.candidate r s.sent (with_verification s x)
Verifying-render s (m, none) r e = cc
Verifying-render s (m, some q) r e = record {
  sent = ap (λ (x : Request). x ∷ s.sent) (ap (get_or_else q) e);
  asker = refl;
  pending = omega arith;
}

paste-Verifying :
    (s : Session) (t : Text)
    → s.modal.step ≡ otp_step
    → s.modal.loading ≡ false
    → s.modal.submitted ≡ false
    → length (pasted_digits t) ≡ 6
    → Verifying s.modal.candidate
        (verify s.modal.email (pasted_digits t))
        s.sent
        (modal_step (otp_paste t) s)
unfolding Session.render
paste-Verifying s t o l b n =
    let (cells, st, lo, su, em, se) = paste_handled s t n in
    let g = with_candidate s.modal.candidate (Session.handle s (otp_paste t)) in
    let sends = submitted_paste g.modal (pasted_digits t) (st ∙ o) (lo ∙ l) (su ∙ b) cells n in
    let v = Verifying-render g (auto_submit g.modal) _ sends in
    let same : modal_step (otp_paste t) s ≡ Session.render g =
      ap (λ (x : Bool). if x then Session.render g else s) (ap is_otp_step o) in
    subst (Verifying s.modal.candidate (verify s.modal.email (pasted_digits t)) s.sent) (sym same)
      (record {
        sent = v.sent ∙ ap₂ (λ (x : Text) (l : List Request). verify x (pasted_digits t) ∷ l) em se;
        asker = v.asker;
        pending = v.pending;
      })

stored_answer :
    (s : Session) (id : ℕ)
    → 0 < s.verifications
    → (modal_step (verify_answer (ok tt) id) s).storage.voted_candidate_id ≡ some (show s.asker.id)
unfolding Session.render Session.handle verify_answered
stored_answer s id v = ground arith

abbrev sent_of : Option Session → List Request
sent_of none = []
sent_of (some s) = s.sent

-- The page while the modal is that of `d`.
record Shows (d : Candidate) (s : Session) (p : Page) : Type 0 where
  shown : p.session ≡ some s
  selected : p.home.selected_candidate ≡ some d
  open_memo : is_open p.clock.open_memo ≡ true

vote-Shows :
    (p : Page) (s : Session) (d : Candidate) (i : ℕ)
    → Matched p
    → p.session ≡ some s
    → is_open p.clock.open_memo ≡ true
    → has_voted p.home.voted_candidate_id ≡ false
    → get_elem? p.home.candidates i ≡ some d
    → Shows d (with_candidate d s) (step p (votes i))
unfolding step handle render vote_of handle_vote shown_modal
vote-Shows p s d i m e o v g = ground (arith, m.open_memo)

render-Shows :
    (p : Page) (s : Session) (d : Candidate)
    → Shows d s p
    → Shows d (with_candidate d s) (render p) × ((render p).home.storage ≡ p.home.storage)
unfolding render shown_modal
render-Shows p s d h = ground (arith, h.shown, h.selected, h.open_memo)

modal-Shows :
    (p : Page) (s : Session) (d : Candidate) (e : Session.Event)
    → Shows d s p
    → Shows d (with_candidate d (modal_step e (shared p s))) (step p (in_shown e))
      × ((step p (in_shown e)).home.storage ≡ (modal_step e (shared p s)).storage)
unfolding step handle in_modal
modal-Shows p s d e h = rw (h.shown) (
    render-Shows (in_modal (some s) e p) (modal_step e (shared p s)) d
      (record { shown = refl; selected = h.selected; open_memo = h.open_memo }))

-- The requests that the shown modal has sent.
abbrev pub sent_by : Page → List Request
sent_by p = sent_of p.session

-- What the code does when a vote button is pressed behind a modal that waits for the code: the modal
-- goes on for the other candidate `d`, without a request for a code for `d`; the digits are sent for
-- the same address as before, and once they are accepted, the browser's vote is one for `d`.
pub vote_swapped :
    (p : Page) (s : Session) (d : Candidate) (i id : ℕ) (t : Text)
    → Matched p
    → p.session ≡ some s
    → is_open p.clock.open_memo ≡ true
    → has_voted p.home.voted_candidate_id ≡ false
    → get_elem? p.home.candidates i ≡ some d
    → s.modal.step ≡ otp_step
    → s.modal.loading ≡ false
    → s.modal.submitted ≡ false
    → length (pasted_digits t) ≡ 6
    → let q = step (step p (votes i)) (in_shown (otp_paste t)) in
      (sent_by q ≡ verify s.modal.email (pasted_digits t) ∷ s.sent)
      × ((step q (in_shown (verify_answer (ok tt) id))).home.storage.voted_candidate_id
          ≡ some (show d.id))
vote_swapped p s d i id t m e o v g st lo su n =
    let x = step p (votes i) in
    let a = vote-Shows p s d i m e o v g in
    let y = shared x (with_candidate d s) in
    let w = paste-Verifying y t st lo su n in
    let q = step x (in_shown (otp_paste t)) in
    let b = (modal-Shows x (with_candidate d s) d (otp_paste t) a).0 in
    let z = with_candidate d (modal_step (otp_paste t) y) in
    let c = (modal-Shows q z d (verify_answer (ok tt) id) b).1 in
    (
      ap sent_of b.shown ∙ w.sent,
      ap (λ (k : Storage). k.voted_candidate_id) c
          ∙ stored_answer (shared q z) id w.pending
          ∙ ap (λ (k : Candidate). some (show k.id)) w.asker,
    )
