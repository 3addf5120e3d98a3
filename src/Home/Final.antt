-- ===== src/Home/Final.antt =====
-- After the modal was closed from its last screen the page takes no further vote.
use voting_app.Prelude.{
  ℕ, true, List, [], ◌∷◌, ◌≡◌, ◌≢◌, ◌⊎◌, inl, inr, Option, some, none, arith, refl, get_elem?, Text,
  is_some, Bool-cases, ap, ◌∙◌, subst, sym, Bool, false,
}
use voting_app.CandidateCard.{Voted, has_voted, vote_button, card}
use voting_app.Decimal.{show}
use voting_app.Home.{shown_modal, handle_vote, handle_close_modal, stored_vote, is_open}
use voting_app.Home.Page.{
  Page, Event, render, handle, step, run, visit, on_socket, vote_of, in_modal, in_late, shared,
  with_candidate, calling, modal_step, socket, ticks_at, votes, in_shown, closes, in_gone,
  sets_status, is_late, swap,
}
use voting_app.Home.Votes.{stored_vote-show}
use voting_app.Storage.{Storage}
use voting_app.Toasts.{Provider}
use voting_app.Types.{Candidate}
use voting_app.VoteModal.{is_done}
use voting_app.VoteModal.Session
use voting_app.VoteModal.Session.{Session, start}
use voting_app.WebSocket

-- The storage holds the id of a candidate.
abbrev Numbered : Option Text → Type 0
Numbered o = (n : ℕ) × (o ≡ some (show n))

-- A modal on its last screen has stored an id.
abbrev Settled : Option Session → Storage → Type 0
Settled none g = Unit
Settled (some s) g = is_done s.modal.step ≡ true → Numbered g.voted_candidate_id

stored_handle :
    (s : Session) (e : Session.Event)
    → ((Session.handle s e).storage.voted_candidate_id ≡ s.storage.voted_candidate_id)
      ⊎ ((Session.handle s e).storage.voted_candidate_id ≡ some (show s.modal.candidate.id))
unfolding Session.handle
stored_handle s e = ground arith

done_handle :
    (s : Session) (e : Session.Event)
    → is_done (Session.handle s e).modal.step ≡ true
    → (is_done s.modal.step ≡ true)
      ⊎ ((Session.handle s e).storage.voted_candidate_id ≡ some (show s.modal.candidate.id))
unfolding Session.handle
done_handle s e d = ground arith

Numbered-handle :
    (s : Session) (e : Session.Event)
    → Numbered s.storage.voted_candidate_id
    → Numbered (Session.handle s e).storage.voted_candidate_id
Numbered-handle s e (n, h) = elim (stored_handle s e) [
  | inl a ↦ (n, a ∙ h)
  | inr a ↦ (s.modal.candidate.id, a)
]

Settled-handle :
    (s : Session) (e : Session.Event)
    → Settled (some s) s.storage
    → Settled (some (Session.handle s e)) (Session.handle s e).storage
Settled-handle s e h d = elim (done_handle s e d) [
  | inl a ↦ Numbered-handle s e (h a)
  | inr a ↦ (s.modal.candidate.id, a)
]

render_keeps :
    (s : Session)
    → ((Session.render s).modal.step ≡ s.modal.step) × ((Session.render s).storage ≡ s.storage)
unfolding Session.render
render_keeps s = ground arith

Settled-render :
    (s : Session)
    → Settled (some s) s.storage
    → Settled (some (Session.render s)) (Session.render s).storage
Settled-render s h d =
    let (k, g) = render_keeps s in
    subst (λ (x : Storage). Numbered x.voted_candidate_id) (sym g) (h (sym (ap is_done k) ∙ d))

Settled-modal_step :
    (s : Session) (e : Session.Event)
    → Settled (some s) s.storage
    → Settled (some (modal_step e s)) (modal_step e s).storage
Settled-modal_step s e h = elim (Bool-cases (Session.enabled s e)) [
  | inl a ↦ rw a (
      Settled-render (with_candidate s.modal.candidate (Session.handle (calling e s) e))
        (Settled-handle (calling e s) e h))
  | inr a ↦ rw a h
]

-- What holds of the page after each event.
abbrev Fine : Page → Type 0
Fine p = Settled p.session p.home.storage

Fine-swap :
    (o : Option Candidate) (u : Option Session) (p : Page)
    → p.session ≡ u
    → Settled u p.home.storage
    → Fine (swap o u p)
unfolding start
Fine-swap none none p q h = rw q tt
Fine-swap none (some s) p q h = tt
Fine-swap (some c) none p q h = λ d. cc
Fine-swap (some c) (some s) p q h = h

Fine-render : (p : Page) → Fine p → Fine (render p)
unfolding render
Fine-render p h =
    let home = record (p.home) {
      candidates = p.hook.candidates;
      voting_open = p.clock.open_memo;
    } in
    Fine-swap (shown_modal home) p.session (record p { home = home }) refl h

Fine-in_modal :
    (o : Option Session) (e : Session.Event) (p : Page)
    → p.session ≡ o
    → Settled o p.home.storage
    → Fine (in_modal o e p)
unfolding in_modal
Fine-in_modal none e p q h = rw q tt
Fine-in_modal (some s) e p q h = Settled-modal_step (shared p s) e h

Settled-Numbered :
    (o : Option Session) (g k : Storage)
    → (Numbered g.voted_candidate_id → Numbered k.voted_candidate_id)
    → Settled o g
    → Settled o k
Settled-Numbered none g k f h = tt
Settled-Numbered (some s) g k f h = λ d. f (h d)

Fine-in_late :
    (i : ℕ) (o : Option Session) (e : Session.Event) (p : Page) → Fine p → Fine (in_late i o e p)
unfolding in_late
Fine-in_late i none e p h = h
Fine-in_late i (some s) e p h = elim (Bool-cases (is_late s e)) [
  | inl a ↦ rw a (
      Settled-Numbered p.session p.home.storage (Session.handle (calling e (shared p s)) e).storage
        (Numbered-handle (calling e (shared p s)) e) h)
  | inr a ↦ rw a h
]

Fine-on_socket : (e : WebSocket.Event) (now : ℕ) (p : Page) → Fine p → Fine (on_socket e now p)
unfolding on_socket
Fine-on_socket e now p h = elim (Bool-cases (sets_status p.hook e)) [
  | inl a ↦ rw a h
  | inr a ↦ rw a h
]

Fine-vote_of : (o : Option Candidate) (p : Page) → Fine p → Fine (vote_of o p)
unfolding vote_of handle_vote
Fine-vote_of none p h = h
Fine-vote_of (some c) p h = elim (Bool-cases (is_open p.home.voting_open)) [
  | inl a ↦ rw a h
  | inr a ↦ rw a h
]

Fine-handle : (p : Page) (e : Event) → Fine p → Fine (handle p e)
unfolding handle handle_close_modal
Fine-handle p (socket e now) h = Fine-on_socket e now p h
Fine-handle p (ticks_at now) h = h
Fine-handle p (votes i) h = elim (Bool-cases (has_voted p.home.voted_candidate_id)) [
  | inl a ↦ rw a h
  | inr a ↦ rw a (Fine-vote_of (get_elem? p.home.candidates i) p h)
]
Fine-handle p (in_shown e) h = Fine-in_modal p.session e p refl h
Fine-handle p closes h = elim (Bool-cases (is_some p.session)) [ inl a ↦ rw a h | inr a ↦ rw a h ]
Fine-handle p (in_gone i e) h = Fine-in_late i (get_elem? p.late i) e p h

Fine-run : (p : Page) (es : List Event) → Fine p → Fine (run p es)
unfolding run step
Fine-run p [] h = h
Fine-run p (e ∷ es) h = Fine-run (step p e) es (Fine-render (handle p e) (Fine-handle p e h))

Fine-visit : (g : Storage) (t : Provider) → Fine (visit g t)
unfolding visit
Fine-visit g t = tt

-- A page without a modal, on which nobody can vote.
record Quiet (p : Page) : Type 0 where
  gone : p.session ≡ none
  unselected : p.home.selected_candidate ≡ none
  voted : has_voted p.home.voted_candidate_id ≡ true

Quiet-render : (p : Page) → Quiet p → Quiet (render p)
unfolding render shown_modal
Quiet-render p h = ground (arith, h.gone, h.unselected, h.voted)

Quiet-none :
    (e : Session.Event) (o : Option Session) (p : Page)
    → o ≡ none
    → Quiet p
    → Quiet (in_modal o e p)
unfolding in_modal
Quiet-none e none p q h = h
Quiet-none e (some s) p q h = cc

Quiet-in_late :
    (i : ℕ) (o : Option Session) (e : Session.Event) (p : Page) → Quiet p → Quiet (in_late i o e p)
unfolding in_late
Quiet-in_late i none e p h = h
Quiet-in_late i (some s) e p h = elim (Bool-cases (is_late s e)) [
  | inl a ↦ rw a (record { gone = h.gone; unselected = h.unselected; voted = h.voted })
  | inr a ↦ rw a h
]

Quiet-handle : (p : Page) (e : Event) → Quiet p → Quiet (handle p e)
unfolding handle on_socket
Quiet-handle p (socket e now) h = elim (Bool-cases (sets_status p.hook e)) [
  | inl a ↦ rw a (record { gone = h.gone; unselected = h.unselected; voted = h.voted })
  | inr a ↦ rw a (record { gone = h.gone; unselected = h.unselected; voted = h.voted })
]
Quiet-handle p (ticks_at now) h = record {
  gone = h.gone;
  unselected = h.unselected;
  voted = h.voted;
}
Quiet-handle p (votes i) h = rw (h.voted) h
Quiet-handle p (in_shown e) h = Quiet-none e p.session p h.gone h
Quiet-handle p closes h =
    rw (h.gone) (record { gone = refl; unselected = h.unselected; voted = h.voted })
Quiet-handle p (in_gone i e) h = Quiet-in_late i (get_elem? p.late i) e p h

Quiet-step : (p : Page) (e : Event) → Quiet p → Quiet (step p e)
unfolding step
Quiet-step p e h = Quiet-render (handle p e) (Quiet-handle p e h)

Quiet-run : (p : Page) (es : List Event) → Quiet p → Quiet (run p es)
unfolding run
Quiet-run p [] h = h
Quiet-run p (e ∷ es) h = Quiet-run (step p e) es (Quiet-step p e h)

close-Quiet :
    (p : Page) (s : Session)
    → p.session ≡ some s
    → Numbered p.home.storage.voted_candidate_id
    → Quiet (step p closes)
unfolding step handle render handle_close_modal shown_modal
close-Quiet p s q (n, h) = let v = ap stored_vote h ∙ stored_vote-show n in ground (arith, q, v)

voted-card :
    (base : Text) (c : Candidate) (rank : ℕ) (v : Voted)
    → has_voted v ≡ true
    → (card base c rank v).action ≢ vote_button
unfolding card
voted-card base c rank v h = ground arith

-- Whether a modal is shown that is on its last screen.
abbrev pub at_end : Option Session → Bool
at_end none = false
at_end (some s) = is_done s.modal.step

end-Quiet :
    (p : Page) (o : Option Session)
    → p.session ≡ o
    → at_end o ≡ true
    → Settled o p.home.storage
    → Quiet (step p closes)
end-Quiet p none q e h = cc
end-Quiet p (some s) q e h = close-Quiet p s q (h e)

-- On every page that events lead to: once the modal is closed from its last screen, then whatever
-- happens until the page is left, no modal is shown again and no card offers to vote.
pub vote_ends :
    (g : Storage) (t : Provider) (es later : List Event) (base : Text) (c : Candidate) (rank : ℕ)
    → at_end (run (visit g t) es).session ≡ true
    → let q = run (step (run (visit g t) es) closes) later in
      (q.session ≡ none) × ((card base c rank q.home.voted_candidate_id).action ≢ vote_button)
vote_ends g t es later base c rank d =
    let p = run (visit g t) es in
    let r = end-Quiet p p.session refl d (Fine-run (visit g t) es (Fine-visit g t)) in
    let q = Quiet-run (step p closes) later r in
    (q.gone, voted-card base c rank (run (step p closes) later).home.voted_candidate_id q.voted)
