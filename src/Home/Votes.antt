-- ===== src/Home/Votes.antt =====
-- The page together with the modal: what a vote in the modal does to the cards.
use voting_app.Prelude.{
  Text, Bool, Option, false, ◌∷◌, List, none, true, ℕ, ◌≡◌, some, is_empty, refl, [], if◌then◌else◌,
  ◌==◌, ◌∙◌, ap, arith, ◌<◌,
}
use voting_app.Api.{ok}
use voting_app.CandidateCard.{
  voted_for, vote_button, card, not_voted, you_voted, already_voted_note,
}
use voting_app.Decimal.{show, is_empty-show, number-show, number}
use voting_app.Home.{Home, stored_vote, handle_close_modal}
use voting_app.Storage.{Storage}
use voting_app.Toasts.{Provider}
use voting_app.Types.{Candidate}
use voting_app.VoteModal.{verify_answered, Modal, is_done}
use voting_app.VoteModal.Done.{done_stores}
use voting_app.VoteModal.Session.{Session, run, start, Event}

-- The modal's session ends, and the page closes it.
pub close_after : Session → Home → Home
close_after s h = handle_close_modal (record h { storage = s.storage })

stored_vote_of_number :
    (t : Text) (n : ℕ) → is_empty t ≡ false → number t ≡ some n → stored_vote (some t) ≡ voted_for n
unfolding stored_vote
stored_vote_of_number [] n e h = cc
stored_vote_of_number (c ∷ t) n e h = rw h

-- What the page makes of the text that the modal stores.
pub stored_vote-show : (n : ℕ) → stored_vote (some (show n)) ≡ voted_for n
stored_vote-show n = stored_vote_of_number (show n) n (is_empty-show n) (number-show n)

stored_vote-if :
    (b : Bool) (n : ℕ) (before : Option Text)
    → stored_vote (if b then some (show n) else before)
      ≡ (if b then voted_for n else stored_vote before)
stored_vote-if true n before = stored_vote-show n
stored_vote-if false n before = refl

voted-close_after :
    (s : Session) (h : Home)
    → (close_after s h).voted_candidate_id ≡ stored_vote s.storage.voted_candidate_id
unfolding close_after handle_close_modal
voted-close_after s h = refl

-- The modal of the candidate `c`, opened on the page `h` and left after some events.
abbrev pub left : Candidate → Home → Provider → List Event → Home
left c h p es = close_after (run (start c h.storage p) es) h

-- When the modal is closed, the page counts the browser as having voted for the modal's candidate
-- exactly if the last screen was reached; if not, the vote is what the storage said before.
pub close_syncs :
    (c : Candidate) (h : Home) (p : Provider) (es : List Event)
    → (left c h p es).voted_candidate_id ≡ (
        if is_done (run (start c h.storage p) es).modal.step
        then voted_for c.id
        else stored_vote h.storage.voted_candidate_id)
close_syncs c h p es =
    voted-close_after (run (start c h.storage p) es) h
    ∙ ap stored_vote (done_stores c h.storage p es).stored
    ∙ stored_vote-if _ c.id h.storage.voted_candidate_id

action_of_voted :
    (base : Text) (d : Candidate) (rank n : ℕ)
    → (card base d rank (voted_for n)).action
      ≡ (if n == d.id then you_voted else already_voted_note)
unfolding card
action_of_voted base d rank n = ground arith

-- When the modal is closed from its last screen, whether that says that the vote is recorded or that
-- it was cast before, no card offers to vote: the card of the modal's candidate says that the vote is
-- theirs, and each other one says that it was cast.
pub done_closes_cards :
    (c d : Candidate) (h : Home) (p : Provider) (es : List Event) (base : Text) (rank : ℕ)
    → is_done (run (start c h.storage p) es).modal.step ≡ true
    → (card base d rank (left c h p es).voted_candidate_id).action
      ≡ (if c.id == d.id then you_voted else already_voted_note)
done_closes_cards c d h p es base rank e =
    ap (λ k. (card base d rank k).action)
      (close_syncs c h p es
        ∙ ap (λ (b : Bool). if b then voted_for c.id else stored_vote h.storage.voted_candidate_id)
            e)
    ∙ action_of_voted base d rank c.id

stored_vote-none : stored_vote none ≡ not_voted
unfolding stored_vote
stored_vote-none = refl

-- The answer to a verification that is in flight when the modal is closed: the modal is gone, and
-- only the storage is written.
pub late_answer : Session → Home → Home
late_answer s h = record h { storage = (verify_answered (ok tt) s.modal h.storage).1 }

late_storage :
    (m : Modal) (g : Storage)
    → (verify_answered (ok tt) m g).1.voted_candidate_id ≡ some (show m.candidate.id)
unfolding verify_answered
late_storage m g = refl

action_not_voted :
    (base : Text) (d : Candidate) (rank : ℕ) → (card base d rank not_voted).action ≡ vote_button
unfolding card
action_not_voted base d rank = refl

-- A vote that is recorded after its modal was closed is not noticed: if the modal is closed before
-- the last screen, in a browser that has not voted, and the server then accepts a verification in
-- flight, the storage holds the vote, and every card still offers to vote.
pub late_vote_unseen :
    (c d : Candidate) (h : Home) (p : Provider) (es : List Event) (base : Text) (rank : ℕ)
    → h.storage.voted_candidate_id ≡ none
    → is_done (run (start c h.storage p) es).modal.step ≡ false
    → 0 < (run (start c h.storage p) es).verifications
    → let g = late_answer (run (start c h.storage p) es) (left c h p es) in
      (stored_vote g.storage.voted_candidate_id ≡ voted_for c.id)
      × ((card base d rank g.voted_candidate_id).action ≡ vote_button)
unfolding late_answer
late_vote_unseen c d h p es base rank n e v =
    let s = run (start c h.storage p) es in
    (
      ap stored_vote (late_storage s.modal (left c h p es).storage)
          ∙ stored_vote-show s.modal.candidate.id
          ∙ ap (λ (k : Candidate). voted_for k.id) (done_stores c h.storage p es).candidate,
      ap (λ k. (card base d rank k).action)
            (close_syncs c h p es
              ∙ ap
                  (λ (b : Bool).
                    if b then voted_for c.id else stored_vote h.storage.voted_candidate_id)
                  e
              ∙ ap stored_vote n
              ∙ stored_vote-none)
          ∙ action_not_voted base d rank,
    )
