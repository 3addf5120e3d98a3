-- ===== src/Home/Reopened.antt =====
-- What becomes of an open modal when the voting is closed and opened again.
use voting_app.Prelude.{
  arith, refl, subst, ap, sym, ◌∙◌, ap₂, Bool, ℕ, none, ◌≡◌, some, false, true,
}
use voting_app.Home.{shown_modal, voting_open, Home}
use voting_app.Home.Clock.{tick_at}
use voting_app.Home.Page.{Page, step, handle, render, socket, on_socket, status_set, Event}
use voting_app.Storage.{Storage}
use voting_app.Toasts.{Provider}
use voting_app.Types.{Candidate, WsMessage}
use voting_app.VoteModal.Session.{start}
use voting_app.WebSocket
use voting_app.WebSocket.{received, find_socket, Socket, on_message, Hook}

-- The message that opens or closes the voting, with no end time.
abbrev pub switch : Bool → WsMessage
switch b = record {
  candidates = none;
  voting_status = some (some (record { effectively_open = b; ends_at = none }));
}

-- The hook gets messages of the socket `k`.
abbrev pub Receives : ℕ → Hook → Type 0
Receives k h =
    (s : Socket) × (find_socket k h.sockets ≡ some s) × (s.closing ≡ false) × (h.is_mounted ≡ true)

abbrev switched : Bool → Page → Hook
switched b p = record (p.hook) {
  voting_status = some (record { effectively_open = b; ends_at = none });
}

hook_switch :
    (b : Bool) (k : ℕ) (p : Page)
    → Receives k p.hook
    → WebSocket.step p.hook (received k (some (switch b))) ≡ switched b p
unfolding WebSocket.step on_message
hook_switch b k p (s, f, c, m) = ground arith

on_socket-switch :
    (b : Bool) (k now : ℕ) (p : Page)
    → Receives k p.hook
    → ((on_socket (received k (some (switch b))) now p).hook ≡ switched b p)
      × ((on_socket (received k (some (switch b))) now p).clock.open_memo ≡ some b)
      × ((on_socket (received k (some (switch b))) now p).home ≡ p.home)
      × ((on_socket (received k (some (switch b))) now p).session ≡ p.session)
      × ((on_socket (received k (some (switch b))) now p).provider ≡ p.provider)
unfolding on_socket status_set voting_open tick_at
on_socket-switch b k now p (s, f, c, m) = ground (arith, hook_switch b k p (s, f, c, m))

-- What a render keeps of the page.
abbrev Keeps : Page → Page → Type 0
Keeps p q =
    (q.home.selected_candidate ≡ p.home.selected_candidate)
    × (q.home.voted_candidate_id ≡ p.home.voted_candidate_id)
    × (q.home.storage ≡ p.home.storage)
    × (q.provider ≡ p.provider)
    × (q.hook ≡ p.hook)

render-Keeps : (p : Page) → Keeps p (render p)
unfolding render shown_modal
render-Keeps p = ground arith

render_closed : (p : Page) → p.clock.open_memo ≡ some false → (render p).session ≡ none
unfolding render shown_modal
render_closed p e = ground arith

render_opens :
    (p : Page) (c : Candidate)
    → p.clock.open_memo ≡ some true
    → p.session ≡ none
    → p.home.selected_candidate ≡ some c
    → (render p).session ≡ some (start c p.home.storage p.provider)
unfolding render shown_modal
render_opens p c e n s = ground arith

step_socket :
    (p : Page) (e : WebSocket.Event) (now : ℕ) → step p (socket e now) ≡ render (on_socket e now p)
unfolding step handle
step_socket p e now = refl

-- A message of the socket that opens or closes the voting.
abbrev pub switch_at : Bool → ℕ → ℕ → Event
switch_at b k now = socket (received k (some (switch b))) now

-- What stays over such a message.
record Switched (b : Bool) (p q : Page) : Type 0 where
  selected : q.home.selected_candidate ≡ p.home.selected_candidate
  voted : q.home.voted_candidate_id ≡ p.home.voted_candidate_id
  storage : q.home.storage ≡ p.home.storage
  provider : q.provider ≡ p.provider
  hook : q.hook ≡ switched b p

step-Switched :
    (b : Bool) (k now : ℕ) (p : Page)
    → Receives k p.hook
    → Switched b p (step p (switch_at b k now))
step-Switched b k now p r =
    let x = on_socket (received k (some (switch b))) now p in
    let (h, m, home, s, t) = on_socket-switch b k now p r in
    let (k₀, k₁, k₂, k₃, k₄) = render-Keeps x in
    subst (Switched b p) (sym (step_socket p (received k (some (switch b))) now)) (record {
      selected = k₀ ∙ ap (λ (g : Home). g.selected_candidate) home;
      voted = k₁ ∙ ap (λ (g : Home). g.voted_candidate_id) home;
      storage = k₂ ∙ ap (λ (g : Home). g.storage) home;
      provider = k₃ ∙ t;
      hook = k₄ ∙ h;
    })

close_unmounts :
    (k now : ℕ) (p : Page) → Receives k p.hook → (step p (switch_at false k now)).session ≡ none
close_unmounts k now p r =
    ap (λ (q : Page). q.session) (step_socket p (received k (some (switch false))) now)
    ∙ render_closed (on_socket (received k (some (switch false))) now p)
        (on_socket-switch false k now p r).1

open_mounts :
    (k now : ℕ) (p : Page) (c : Candidate)
    → Receives k p.hook
    → p.session ≡ none
    → p.home.selected_candidate ≡ some c
    → (step p (switch_at true k now)).session ≡ some (start c p.home.storage p.provider)
open_mounts k now p c r n e =
    let x = on_socket (received k (some (switch true))) now p in
    let (h, m, home, s, t) = on_socket-switch true k now p r in
    ap (λ (q : Page). q.session) (step_socket p (received k (some (switch true))) now)
    ∙ render_opens x c m (s ∙ n) (ap (λ (g : Home). g.selected_candidate) home ∙ e)
    ∙ ap₂ (λ (g : Home) (u : Provider). some (start c g.storage u)) home t

-- What the code does when the voting is closed while a modal is open, and then opened again: the modal
-- goes, whatever step it is on, the page does not look whether a vote was stored, and when the voting
-- opens a fresh modal for the same candidate comes up by itself.
pub reopened_afresh :
    (p : Page) (c : Candidate) (k now later : ℕ)
    → Receives k p.hook
    → p.home.selected_candidate ≡ some c
    → let q = step p (switch_at false k now) in
      let r = step q (switch_at true k later) in
      (q.session ≡ none)
      × (r.home.voted_candidate_id ≡ p.home.voted_candidate_id)
      × (r.session ≡ some (start c p.home.storage p.provider))
reopened_afresh p c k now later r e =
    let q = step p (switch_at false k now) in
    let s = step-Switched false k now p r in
    let rq : Receives k q.hook = subst (Receives k) (sym s.hook) r in
    let u = step-Switched true k later q rq in
    (
      close_unmounts k now p r,
      u.voted ∙ s.voted,
      open_mounts k later q c rq (close_unmounts k now p r) (s.selected ∙ e)
          ∙ ap₂ (λ (g : Storage) (t : Provider). some (start c g t)) s.storage s.provider,
    )
